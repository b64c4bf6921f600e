-- ===== src/Ept/Tables/Walk.antt =====
-- What the tables mean: the walk as a function of the memory alone, and the translation that the
-- processor finds by it.
use device_mon.Prelude.{
  ℕ, zero, suc, ◌+◌, ◌*◌, ◌/◌, ◌%◌, ◌^◌, ◌≤◌, ◌<◌, ◌≡◌, refl, ap, inl, inr, Option-cases, ◌≢◌,
  Option, none, some, arith, ◌==◌, if◌then◌else◌,
}
use device_mon.Ept.Entry.{EptCommonEntry, all, table_index}
use device_mon.Ept.Tables.{Table, Pointer, Ept}

abbrev pub Memory : Type 0
Memory = ℕ → Option Table

-- The part of an address above what a table of the level below covers; at 0 it is the page number,
-- of which the tables know 36 bits.
abbrev pub cover : ℕ → ℕ → ℕ
cover zero pa = pa / 2 ^ 12 % 2 ^ 36
cover (suc zero) pa = pa / 2 ^ 21 % 2 ^ 27
cover (suc (suc zero)) pa = pa / 2 ^ 30 % 2 ^ 18
cover (suc (suc (suc zero))) pa = pa / 2 ^ 39 % 2 ^ 9
cover _ pa = 0

abbrev pub page : ℕ → ℕ
page pa = pa / 4096 % 2 ^ 36

-- The index at a level from 1 to 4.
abbrev pub slot : ℕ → ℕ → ℕ
slot level pa = cover (level) pa % 512

pub table_index-slot :
    (level pa : ℕ) → level < 4 → table_index (suc level) pa ≡ some (slot level pa)
unfolding table_index
table_index-slot zero pa h = ap some (omega arith)
table_index-slot (suc zero) pa h = ap some (omega arith)
table_index-slot (suc (suc zero)) pa h = ap some (omega arith)
table_index-slot (suc (suc (suc zero))) pa h = ap some (omega arith)
table_index-slot (suc (suc (suc (suc level)))) pa h = absurd (omega arith)

pub cover-slot :
    (level pa : ℕ) → level < 4 → cover level pa ≡ cover (suc level) pa * 512 + slot level pa
cover-slot zero pa h = omega arith
cover-slot (suc zero) pa h = omega arith
cover-slot (suc (suc zero)) pa h = omega arith
cover-slot (suc (suc (suc zero))) pa h = omega arith
cover-slot (suc (suc (suc (suc level)))) pa h = absurd (omega arith)

pub slot-lt : (level pa : ℕ) → slot level pa < 512
slot-lt level pa = omega arith

-- The walk of `EptpGetEptPtEntry`: from a table of a level to the entry of the page, `none` where an
-- entry on the way is empty.
unfoldable pub locate : (level table : ℕ) → ℕ → Memory → Option Pointer
locate zero f pa m = none
locate (suc zero) f pa m = some (f, slot 0 pa)
locate (suc (suc level)) f pa m = elim (m f) [
  | none ↦ none
  | some t ↦
      let e = t (slot (suc level) pa) in
      let deeper = locate (suc level) e.physial_address pa m in if all e == 0 then none else deeper
]

-- The entry behind a pointer, `none` if it is empty.
unfoldable pub deref : Memory → Option Pointer → Option EptCommonEntry
deref m none = none
deref m (some (f, i)) = elim (m f) [
  | none ↦ none
  | some t ↦ if all (t i) == 0 then none else some (t i)
]

-- The entry that translates an address: what the processor finds, `none` for an EPT violation.
unfoldable pub translation : ℕ → Ept → Option EptCommonEntry
unfolding locate deref
translation pa s = deref s.tables (locate 4 s.ept_pml4 pa s.tables)

pub slot-page : (level pa pa' : ℕ) → level < 4 → page pa ≡ page pa' → slot level pa ≡ slot level pa'
slot-page zero pa pa' h e = omega arith
slot-page (suc zero) pa pa' h e = omega arith
slot-page (suc (suc zero)) pa pa' h e = omega arith
slot-page (suc (suc (suc zero))) pa pa' h e = omega arith
slot-page (suc (suc (suc (suc level)))) pa pa' h e = absurd (omega arith)

-- Addresses in the same page take the same way.
pub locate-page :
    (level f pa pa' : ℕ) (m : Memory)
    → level ≤ 4
    → page pa ≡ page pa'
    → locate level f pa m ≡ locate level f pa' m
unfolding locate
locate-page zero f pa pa' m h e = refl
locate-page (suc zero) f pa pa' m h e = ap (λ i. some (f, i)) (slot-page 0 pa pa' (omega arith) e)
locate-page (suc (suc level)) f pa pa' m h e = elim (Option-cases (m f)) [
  | inl lost ↦ rw (lost, locate)
  | inr (t, found) ↦
      let next = (t (slot (suc level) pa')).physial_address in
      rw (
        found,
        locate,
        slot-page (suc level) pa pa' (omega arith) e,
        locate-page (suc level) next pa pa' m (omega arith) e,
      )
]

-- One step of the walk.
pub locate-step :
    (l f pa : ℕ) (m : Memory) (t : Table)
    → m f ≡ some t
    → all (t (slot (suc l) pa)) ≢ 0
    → locate (suc (suc l)) f pa m ≡ locate (suc l) (t (slot (suc l) pa)).physial_address pa m
unfolding locate
locate-step l f pa m t found full = ground arith

pub locate-stop :
    (l f pa : ℕ) (m : Memory) (t : Table)
    → m f ≡ some t
    → all (t (slot (suc l) pa)) ≡ 0
    → locate (suc (suc l)) f pa m ≡ none
unfolding locate
locate-stop l f pa m t found empty = ground arith
