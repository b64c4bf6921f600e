-- ===== src/Ept/Tables/Construct.antt =====
-- `EptpConstructTables`: it ends without a fault; it sets the entry of the page that is asked for,
-- and no other page is translated otherwise.
use device_mon.Prelude.{
  ◌+◌, ◌^◌, ◌≤◌, ℕ, zero, suc, ◌≤◌, ◌<◌, ◌≡◌, refl, sym, ap, ◌∙◌, ◌≢◌, Bool, Option, none, some,
  arith,
}
use device_mon.Ept.Entry.{EptCommonEntry, all, init_table_entry}
use device_mon.Ept.Tables.{Table, Pointer, Ept, Run, ok, ◌>>=◌, pure, set_leaf, construct_tables}
use device_mon.Ept.Tables.Walk.{
  cover, page, slot, slot-lt, table_index-slot, locate, deref, locate-step,
}
use device_mon.Ept.Tables.Inv.{Shape, Inv, linked-some, next-linked}
use device_mon.Ept.Tables.Extends.{Extends, Unchanged, Extends-trans, Unchanged-trans}
use device_mon.Ept.Tables.Leaf.{read-ok, write-ok, leaf-Extends, leaf-deref, leaf-Unchanged}
use device_mon.Ept.Tables.Spends.{Spends, next_table-Spends}
use device_mon.Ept.Tables.Enter.{Always, Entered, stuck, entered, init-full, next_table-Entered}

-- The result of a call for `pa` at the table `f` of level `l + 1`.
pub data Constructed (s : Ept) (h : Shape) (l f pa : ℕ) : Run (Option Pointer) → Type 0 where
  short :
      {s' : Ept} (h' : Shape)
      → Extends s h s' h'
      → Unchanged Always s h s'
      → Constructed s h l f pa (ok none s')
  done :
      {s' : Ept} (h' : Shape) (p : Pointer) (old : EptCommonEntry)
      → Extends s h s' h'
      → locate (suc l) f pa s'.tables ≡ some p
      → deref s'.tables (some p) ≡ some (init_table_entry s.mtrrs old 1 pa)
      → Unchanged (λ pa'. page pa' ≢ page pa) s h s'
      → Constructed s h l f pa (ok (some p) s')

set_leaf-Constructed :
    (s : Ept) (h : Shape) (f pa : ℕ) (t : Table)
    → Inv s h
    → s.tables f ≡ some t
    → h.level f ≡ 1
    → h.prefix f ≡ cover 1 pa
    → Constructed s h 0 f pa (set_leaf pa (f, slot 0 pa) s)
unfolding set_leaf locate
set_leaf-Constructed s h f pa t inv found level prefix =
    let i : ℕ = slot 0 pa in
    let e = init_table_entry s.mtrrs (t i) 1 pa in
    rw (read-ok s f i t found, set_leaf, ◌>>=◌)
      (rw (write-ok s f i t e found, ◌>>=◌)
        (done h (f, i) (t i) (leaf-Extends s h f i t e inv found level) refl
          (leaf-deref s h f i t e inv found level (init-full s.mtrrs (t i) 1 pa))
          (leaf-Unchanged s h f i t e inv found level pa prefix refl)))

-- What holds of the table below holds of the call at the table above.
descend :
    {s s₂ : Ept} {h h₂ : Shape} (l f g pa : ℕ) (t : Table)
    → Extends s h s₂ h₂
    → Unchanged Always s h s₂
    → s₂.tables f ≡ some t
    → 2 ≤ h.level f
    → all (t (slot (suc l) pa)) ≢ 0
    → (t (slot (suc l) pa)).physial_address ≡ g
    → {r : Run (Option Pointer)} → Constructed s₂ h₂ l g pa r
    → Constructed s h (suc l) f pa r
descend {s} l f g pa t x u at two full leads (short {s'} h' y v) =
    short h' (Extends-trans x y) (Unchanged-trans Always s' x u v)
descend {s} l f g pa t x u at two full leads (done {s'} h' p old y found value v) =
    let (t', at', same) = y.kept f (slot (suc l) pa) t at (ground (arith, x.levels f)) full in
    done h' p old (Extends-trans x y)
      (rw (locate-step l f pa s'.tables t' at' (rw same full), same, leads) found)
      (rw x.same_mtrrs at value)
      (Unchanged-trans (λ pa'. page pa' ≢ page pa) s' x
        (λ l' f' pa' lv pre low ne. u l' f' pa' lv pre low tt) v)

-- What the call does with the table below.
abbrev go_on : Bool → ℕ → ℕ → Option ℕ → Ept → Run (Option Pointer)
go_on given l pa next = elim next [
  | none ↦ pure none
  | some g ↦ construct_tables given (suc l) g pa
]

after-Entered :
    (given : Bool) (l : ℕ) (s : Ept) (h : Shape) (f pa : ℕ)
    → h.level f ≡ suc (suc l)
    → h.prefix f ≡ cover (suc (suc l)) pa
    → suc l < 4
    → ((s₂ : Ept) (h₂ : Shape) (g : ℕ)
        → Inv s₂ h₂
        → h₂.level g ≡ suc l
        → h₂.prefix g ≡ cover (suc l) pa
        → s₂.preallocated_entries_count ≤ s.preallocated_entries_count + 1
        → Constructed s₂ h₂ l g pa (construct_tables given (suc l) g pa s₂))
    → {r : Run (Option ℕ)} → Entered s h f (slot (suc l) pa) r
    → Spends s 1 r
    → Constructed s h (suc l) f pa (◌>>=◌ (λ _. r) (go_on given l pa) s)
after-Entered given l s h f pa level prefix low ih (stuck x u) spending = short h x u
after-Entered given l s h f pa level prefix low ih (entered {s' = s₂} h₂ g t x u at full leads)
      (Spends.spent took few) =
    let same = x.levels f (omega arith) in
    let go = next-linked l f pa t x.inv.links (same.0 ∙ level) (same.1 ∙ prefix) low at full in
    descend l f g pa t x u at (omega arith) full leads
      (ih s₂ h₂ g x.inv (ap h₂.level (sym leads) ∙ go.0) (ap h₂.prefix (sym leads) ∙ go.1) few)

pub construct_tables-Constructed :
    (given : Bool) (l : ℕ) (s : Ept) (h : Shape) (f pa : ℕ)
    → Inv s h
    → h.level f ≡ suc l
    → h.prefix f ≡ cover (suc l) pa
    → l < 4
    → s.preallocated_entries_count + l < 2 ^ 31
    → Constructed s h l f pa (construct_tables given (suc l) f pa s)
unfolding construct_tables
construct_tables-Constructed given zero s h f pa inv level prefix low room =
    let (t, found) = linked-some f inv.links (omega arith) in
    rw (table_index-slot 0 pa low, construct_tables)
      (set_leaf-Constructed s h f pa t inv found level prefix)
construct_tables-Constructed given (suc l) s h f pa inv level prefix low room =
    let (t, found) = linked-some f inv.links (omega arith) in
    rw (table_index-slot (suc l) pa low, construct_tables)
      (after-Entered given l s h f pa level prefix low
        (λ s₂ h₂ g inv₂ lv pre few.
          construct_tables-Constructed given l s₂ h₂ g pa inv₂ lv pre (omega arith) (omega arith))
        (next_table-Entered given (suc (suc l)) f (slot (suc l) pa) t s h inv found (omega arith)
          (slot-lt (suc l) pa) (omega arith))
        (next_table-Spends given (suc (suc l)) f (slot (suc l) pa) s))
