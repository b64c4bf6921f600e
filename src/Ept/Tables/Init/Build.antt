-- ===== src/Ept/Tables/Init/Build.antt =====
-- The tables while `EptInitialization` makes them (DeviceMon/ept.cpp).
use device_mon.Prelude.{
  ℕ, zero, suc, ◌+◌, ◌*◌, ◌%◌, ◌^◌, ◌≡◌, refl, sym, ap, ◌∙◌, Bool, true, false, Option, none, some,
  List, [], ◌∷◌, arith,
}
use mathlib.Core.Path.{subst}
use device_mon.Ept.Tables.{
  Table, Pointer, Ept, Run, ok, fault, pure, preallocated_limit, construct_tables,
}
use device_mon.Ept.Tables.Walk.{Memory}
use device_mon.Ept.Tables.Inv.{Shape, Inv}
use device_mon.Ept.Tables.Allocate.{Unspared}
use device_mon.Ept.Tables.Extends.{Owned, Extends, was_loose}
use device_mon.Ept.Tables.Construct.{Constructed, short, done, construct_tables-Constructed}
use device_mon.Ept.Tables.Init.{PhysicalMemoryRun, construct_pages, construct_runs}
use device_mon.Ept.Tables.Init.Commute.{with_reserve, map_run, Commutes-construct_tables}

-- The state as if no preallocated table were left.
abbrev pub used_up : Ept → Ept
used_up s = with_reserve s.preallocated_entries preallocated_limit s

pub used_up-Unspared : (s : Ept) (x : ℕ) → Unspared (used_up s) x
used_up-Unspared s x j from below = absurd (omega arith)

abbrev pub state_of : {A : Type 0} → Ept → Run A → Ept
state_of s (ok a s') = s'
state_of s fault = s

Constructed-Extends :
    {s : Ept} {h : Shape} {l f pa : ℕ} {r : Run (Option Pointer)}
    → Constructed s h l f pa r
    → (a : Option Pointer) × (s' : Ept) × (h' : Shape) × (r ≡ ok a s') × Extends s h s' h'
Constructed-Extends (short {s'} h' x u) = (none, s', h', refl, x)
Constructed-Extends (done {s'} h' p old x found value u) = (some p, s', h', refl, x)

module _ (m₀ : Memory) (root : ℕ) where
  -- What is linked is reached from the root and was not there before; all else is as it was.
  pub record Good (s : Ept) (h : Shape) : Type 0 where
    pub same_root : s.ept_pml4 ≡ root
    pub inv : Inv (used_up s) h
    pub owned : Owned s h
    pub loose : (x : ℕ) → h.level x ≡ 0 → s.tables x ≡ m₀ x
    pub foreign : (x : ℕ) (t : Table) → m₀ x ≡ some t → h.level x ≡ 0

  pub data Made {A : Type 0} (s : Ept) : Run A → Type 0 where
    made :
        {a : A} {s' : Ept} (h' : Shape)
        → Good s' h'
        → s'.preallocated_entries ≡ s.preallocated_entries
        → s'.preallocated_entries_count ≡ s.preallocated_entries_count
        → Made s (ok a s')

  extended-Good :
      (s s' : Ept) (h h' : Shape) → Good s h → Extends (used_up s) h (used_up s') h' → Good s' h'
  extended-Good s s' h h' g x = record {
    same_root = x.same_root ∙ g.same_root;
    inv = x.inv;
    owned = x.owned g.owned;
    loose = λ f out. x.loose f out ∙ g.loose f (was_loose x f out);
    foreign = λ f t there.
        let out = g.foreign f t there in
        (x.foreign f t (g.loose f out ∙ there) out (used_up-Unspared s f)).0;
  }

  made-by :
      (s : Ept) (h : Shape) (r : Run (Option Pointer)) (a : Option Pointer) (s'' : Ept) (h' : Shape)
      → Good s h
      → map_run s.preallocated_entries preallocated_limit r ≡ ok a s''
      → Extends (used_up s) h s'' h'
      → r ≡ map_run s.preallocated_entries s.preallocated_entries_count r
      → Made s r
  made-by s h fault a s'' h' g run x same = absurd (cc)
  made-by s h (ok b s') a s'' h' g run x same =
      let kept : s' ≡ with_reserve s.preallocated_entries s.preallocated_entries_count s' =
        ap (state_of s') same in
      let entries : s'.preallocated_entries ≡ s.preallocated_entries =
        ap (λ (u : Ept). u.preallocated_entries) kept in
      let reached : with_reserve s.preallocated_entries preallocated_limit s' ≡ s'' =
        ap (state_of s') run in
      let here : used_up s' ≡ s'' =
        ap (λ p. with_reserve p preallocated_limit s') entries ∙ reached in
      made h' (extended-Good s s' h h' g (subst (λ u. Extends (used_up s) h u h') (sym here) x))
        entries (ap (λ (u : Ept). u.preallocated_entries_count) kept)

  pub construct_tables-Made :
      (s : Ept) (h : Shape) (pa : ℕ) → Good s h → Made s (construct_tables false 4 root pa s)
  construct_tables-Made s h pa g =
      let level : h.level root ≡ 4 = ap h.level (sym g.same_root) ∙ g.inv.root in
      let prefix : h.prefix root ≡ 0 = ap h.prefix (sym g.same_root) ∙ g.inv.whole in
      let (a, s'', h', run, x) = Constructed-Extends (
        construct_tables-Constructed false 3 (used_up s) h root pa g.inv level prefix (omega arith)
          (omega arith)) in
      made-by s h (construct_tables false 4 root pa s) a s'' h' g
        (sym (Commutes-construct_tables s.preallocated_entries preallocated_limit 4 root pa s)
          ∙ run)
        x
        (Commutes-construct_tables s.preallocated_entries s.preallocated_entries_count 4 root pa s)

  -- What follows a run that left a good state.
  pub Made-bind :
      {A B : Type 0} (s : Ept) (r : Run A) (k : A → Ept → Run B)
      → Made s r
      → ((a : A) (s' : Ept) (h' : Shape) → Good s' h' → Made s' (k a s'))
      → Made s (elim r as (λ _. Run B) [ ok a s' ↦ k a s' | fault ↦ fault ])
  Made-bind {A} {B} s _ k (made {a} {s'} h' g entries count) next =
      after-Made (k a s') entries count (next a s' h' g)
    where
      after-Made :
          (r : Run B)
          → s'.preallocated_entries ≡ s.preallocated_entries
          → s'.preallocated_entries_count ≡ s.preallocated_entries_count
          → Made s' r
          → Made s r
      after-Made _ e c (made h'' g' e' c') = made h'' g' (e' ∙ e) (c' ∙ c)

  pub construct_pages-Made :
      (base i left : ℕ) (s : Ept) (h : Shape)
      → Good s h
      → Made s (construct_pages root base i left s)
  unfolding construct_pages
  construct_pages-Made base i zero s h g = made h g refl refl
  construct_pages-Made base i (suc left) s h g =
      Made-bind s (construct_tables false 4 root ((base + i * 4096) % 2 ^ 64) s) _
        (construct_tables-Made s h ((base + i * 4096) % 2 ^ 64) g)
        (λ entry s' h' g'.
          elim entry
            as (λ (entry : Option Pointer). Made s' (
              elim entry as (λ _. Ept → Run Bool) [
                | none ↦ pure false
                | some p ↦ construct_pages root base (i + 1) left
              ]
                s')) [
                  | none ↦ made h' g' refl refl
                  | some p ↦ construct_pages-Made base (i + 1) left s' h' g'
                ])

  pub construct_runs-Made :
      (runs : List PhysicalMemoryRun) (s : Ept) (h : Shape)
      → Good s h
      → Made s (construct_runs root runs s)
  unfolding construct_runs
  construct_runs-Made [] s h g = made h g refl refl
  construct_runs-Made (run ∷ runs) s h g =
      Made-bind s (construct_pages root (run.base_page * 4096 % 2 ^ 64) 0 run.page_count s) _
        (construct_pages-Made (run.base_page * 4096 % 2 ^ 64) 0 run.page_count s h g)
        (λ done s' h' g'.
          elim done
            as (λ (done : Bool). Made s' (
              elim done as (λ _. Ept → Run Bool) [
                | true ↦ construct_runs root runs
                | false ↦ pure false
              ]
                s')) [ true ↦ construct_runs-Made runs s' h' g' | false ↦ made h' g' refl refl ])
