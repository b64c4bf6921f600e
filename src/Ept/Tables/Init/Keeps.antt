-- ===== src/Ept/Tables/Init/Keeps.antt =====
-- The tables while `EptInitialization` allocates those that it keeps in reserve (DeviceMon/ept.cpp).
use device_mon.Prelude.{
  ℕ, zero, suc, ◌+◌, ◌≡◌, refl, sym, ap, ◌∙◌, inl, inr, Bool, false, Option, none, some, List, [],
  ◌∷◌, update, ◌==◌, Bool-cases, Option-cases, eq_of_test, ne_of_test, if◌then◌else◌,
}
use device_mon.Ept.Entry.{EptCommonEntry, all}
use device_mon.Ept.Tables.{
  Table, Ept, Run, ok, fault, ◌>>=◌, pure, zero_table, allocate_from_pool, allocate_ept_entry,
}
use device_mon.Ept.Tables.Walk.{Memory, slot, locate, deref, translation, locate-step, locate-stop}
use device_mon.Ept.Tables.Inv.{IsFresh, IsFresh-update}
use device_mon.Ept.Tables.Init.{set_preallocated, fill_preallocated}
use device_mon.Ept.Tables.Init.Identity.{Grows}

-- The tables that were there are as they were.
abbrev pub Kept : Memory → Memory → Type 0
Kept m m' = (x : ℕ) (t : Table) → m x ≡ some t → m' x ≡ some t

deref-found :
    (m : Memory) (f i : ℕ) (t : Table)
    → m f ≡ some t
    → deref m (some (f, i)) ≡ (if all (t i) == 0 then none else some (t i))
unfolding deref
deref-found m f i t found = rw (found, deref) refl

deref-lost : (m : Memory) (f i : ℕ) → m f ≡ none → deref m (some (f, i)) ≡ none
unfolding deref
deref-lost m f i lost = rw (lost, deref) refl

locate-lost : (l f pa : ℕ) (m : Memory) → m f ≡ none → deref m (locate (suc (suc l)) f pa m) ≡ none
unfolding locate deref
locate-lost l f pa m lost = rw (lost, locate) refl

no_entry : (m : Memory) → deref m none ≡ none
unfolding deref
no_entry m = refl

locate-Kept :
    (l f pa : ℕ) (m m' : Memory) (e : EptCommonEntry)
    → Kept m m'
    → deref m (locate l f pa m) ≡ some e
    → deref m' (locate l f pa m') ≡ some e
unfolding locate
locate-Kept zero f pa m m' e kept there = absurd (let void = no_entry m in cc)
locate-Kept (suc zero) f pa m m' e kept there = elim (Option-cases (m f)) [
  | inl lost ↦ absurd (let void = deref-lost m f (slot 0 pa) lost in cc)
  | inr (t, found) ↦
      deref-found m' f (slot 0 pa) t (kept f t found)
      ∙ (sym (deref-found m f (slot 0 pa) t found) ∙ there)
]
locate-Kept (suc (suc l)) f pa m m' e kept there = elim (Option-cases (m f)) [
  | inl lost ↦ absurd (let void = locate-lost l f pa m lost in cc)
  | inr (t, found) ↦ elim (Bool-cases (all (t (slot (suc l) pa)) == 0)) [
    | inl void ↦ absurd (
        let stop = locate-stop l f pa m t found (eq_of_test _ _ void) in
        let nothing = ap (deref m) stop ∙ no_entry m in cc)
    | inr busy ↦
        let full = ne_of_test _ _ busy in
        ap (deref m') (locate-step l f pa m' t (kept f t found) full)
        ∙ locate-Kept (suc l) (t (slot (suc l) pa)).physial_address pa m m' e kept
            (ap (deref m) (sym (locate-step l f pa m t found full)) ∙ there)
  ]
]

pub Kept-Grows : (s s' : Ept) → Kept s.tables s'.tables → s'.ept_pml4 ≡ s.ept_pml4 → Grows s s'
unfolding translation
Kept-Grows s s' kept root pa i = record {
  entry = i.entry;
  translates =
      ap (λ f. deref s'.tables (locate 4 f pa s'.tables)) root
      ∙ locate-Kept 4 s.ept_pml4 pa s.tables s'.tables i.entry kept i.translates;
  frame = i.frame;
  reads = i.reads;
  writes = i.writes;
  executes = i.executes;
}

pub data Keeps (s : Ept) : Run Bool → Type 0 where
  keeps :
      {done : Bool} {s' : Ept}
      → Kept s.tables s'.tables
      → s'.ept_pml4 ≡ s.ept_pml4
      → Keeps s (ok done s')

Keeps-before :
    (s s' : Ept) (r : Run Bool)
    → Kept s.tables s'.tables
    → s'.ept_pml4 ≡ s.ept_pml4
    → Keeps s' r
    → Keeps s r
Keeps-before s s' _ kept root (keeps kept' root') =
    keeps (λ x t there. kept' x t (kept x t there)) (root' ∙ root)

new-Kept : (m : Memory) (f : ℕ) → m f ≡ none → Kept m (update m f (some zero_table))
new-Kept m f lost x t there = elim (Bool-cases (x == f)) [
  | inl here ↦ absurd (let same = ap m (eq_of_test x f here) in cc)
  | inr away ↦ rw away there
]

fill-Keeps :
    (i left : ℕ) (s : Ept) (pool : List (Option ℕ))
    → IsFresh s.tables pool
    → ((s' : Ept) → IsFresh s'.tables s'.pool → Keeps s' (fill_preallocated (i + 1) left s'))
    → Keeps s (elim (allocate_ept_entry false (record s { pool = pool })) as (λ _. Run Bool) [
      | ok made s' ↦
          (elim made as (λ _. Ept → Run Bool) [
            | none ↦ pure false
            | some entry ↦ (set_preallocated i entry >>= λ _. fill_preallocated (i + 1) left)
          ])
            s'
      | fault ↦ fault
    ])
unfolding allocate_ept_entry allocate_from_pool set_preallocated
fill-Keeps i left s [] fresh next = keeps (λ x t there. there) refl
fill-Keeps i left s (none ∷ pool) fresh next = keeps (λ x t there. there) refl
fill-Keeps i left s (some f ∷ pool) fresh next =
    let s' = record s {
      pool = pool;
      tables = update s.tables f (some zero_table);
      preallocated_entries = update s.preallocated_entries i f;
    } in
    Keeps-before s s' (fill_preallocated (i + 1) left s') (new-Kept s.tables f fresh.0) refl
      (next s' (IsFresh-update s.tables f (some zero_table) pool fresh.3 fresh.4))

pub fill_preallocated-Keeps :
    (left i : ℕ) (s : Ept) → IsFresh s.tables s.pool → Keeps s (fill_preallocated i left s)
unfolding fill_preallocated
fill_preallocated-Keeps zero i s fresh = keeps (λ x t there. there) refl
fill_preallocated-Keeps (suc left) i s fresh =
    fill-Keeps i left s s.pool fresh (fill_preallocated-Keeps left (i + 1))
