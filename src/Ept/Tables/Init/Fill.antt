-- ===== src/Ept/Tables/Init/Fill.antt =====
-- The preallocated tables while `EptInitialization` allocates them (DeviceMon/ept.cpp).
use device_mon.Prelude.{
  ℕ, zero, suc, ◌+◌, ◌^◌, ◌≤◌, ◌<◌, ◌≡◌, refl, sym, ap, ◌∙◌, inl, inr, ◌≢◌, Bool, true, false,
  Option, none, some, arith, update, ◌==◌, Bool-cases, Option-cases, test_of_eq, test_of_ne,
  eq_of_test, ne_of_test,
}
use mathlib.Core.Path.{subst}
use device_mon.Ept.Tables.{
  Table, Ept, Run, ok, fault, ◌>>=◌, pure, zero_table, preallocated_limit, allocate_from_pool,
  allocate_ept_entry,
}
use device_mon.Ept.Tables.Walk.{Memory}
use device_mon.Ept.Tables.Inv.{Shape, Inv}
use device_mon.Ept.Tables.Allocate.{Got, Allocated, refused, got, allocate_ept_entry-Allocated}
use device_mon.Ept.Tables.Extends.{Owned}
use device_mon.Ept.Tables.Init.{set_preallocated, fill_preallocated}
use device_mon.Ept.Tables.Init.Commute.{with_reserve, map_run, Commutes-allocate_from_pool}
use device_mon.Ept.Tables.Init.Build.{state_of, Good}

-- The memory, and so the owned tables, after tables were allocated that are not linked.
Owned-same :
    (s s' : Ept) (h : Shape)
    → s'.ept_pml4 ≡ s.ept_pml4
    → ((f : ℕ) (t : Table) → s.tables f ≡ some t → s'.tables f ≡ some t)
    → Owned s h
    → Owned s' h
Owned-same s s' h root kept owned x linked = elim (owned x linked) [
  | inl same ↦ inl (same ∙ sym root)
  | inr ((f, i, t, found, inside, two, full, leads), low, positive) ↦
      inr ((f, i, t, kept f t found, inside, two, full, leads), low, positive)
]

module _ (m₀ : Memory) (root : ℕ) where
  -- The first `i` entries are preallocated tables that were not there before.
  pub record Filled (e : ℕ → ℕ) (i : ℕ) (s : Ept) (h : Shape) : Type 0 where
    pub same_root : s.ept_pml4 ≡ root
    pub inv : Inv (with_reserve e preallocated_limit s) h
    pub owned : Owned s h
    pub spare :
        (j : ℕ)
        → j < i
        → (s.tables (e j) ≡ some zero_table) × (h.level (e j) ≡ 0) × (0 < e j) × (e j < 2 ^ 36)
    pub apart : (j k : ℕ) → j < k → k < i → e j ≢ e k
    pub before : (j : ℕ) → j < i → m₀ (e j) ≡ none
    pub loose : (x : ℕ) → h.level x ≡ 0 → ((j : ℕ) → j < i → e j ≢ x) → s.tables x ≡ m₀ x
    pub foreign : (x : ℕ) (t : Table) → m₀ x ≡ some t → h.level x ≡ 0

  pub Good-Filled : (s : Ept) (h : Shape) → Good m₀ root s h → Filled s.preallocated_entries 0 s h
  Good-Filled s h g = record {
    same_root = g.same_root;
    inv = g.inv;
    owned = g.owned;
    spare = λ j below. absurd (omega arith);
    apart = λ j k less below. absurd (omega arith);
    before = λ j below. absurd (omega arith);
    loose = λ x out others. g.loose x out;
    foreign = g.foreign;
  }

  -- What an allocation does to the entries before `i`.
  data Stepped (e : ℕ → ℕ) (i : ℕ) (s : Ept) (h : Shape) : Run (Option ℕ) → Type 0 where
    no_more :
        {s' : Ept}
        → Filled e i s' h
        → s'.preallocated_entries ≡ s.preallocated_entries
        → s'.preallocated_entries_count ≡ s.preallocated_entries_count
        → Stepped e i s h (ok none s')
    one_more :
        {f : ℕ} {s' : Ept}
        → Filled (update e i f) (i + 1) s' h
        → s'.preallocated_entries ≡ s.preallocated_entries
        → s'.preallocated_entries_count ≡ s.preallocated_entries_count
        → Stepped e i s h (ok (some f) s')

  Got-Filled :
      (e : ℕ → ℕ) (i : ℕ) (s s' : Ept) (h : Shape) (f : ℕ)
      → Filled e i s h
      → Got (with_reserve e preallocated_limit s) h f (with_reserve e preallocated_limit s')
      → Filled (update e i f) (i + 1) s' h
  Got-Filled e i s s' h f g new =
      let spent =
        λ (x : ℕ) (j : ℕ) (from : preallocated_limit ≤ j) (below : j < preallocated_limit)
            (same : e j ≡ x).
          absurd (omega arith) in
      let unseen : s.tables f ≡ none = elim (Option-cases (s.tables f)) [
        | inl lost ↦ lost
        | inr (t, there) ↦ absurd (new.unused f t there (spent f) refl)
      ] in
      let others = λ (j : ℕ) (below : j < i).
        λ (same : e j ≡ f). new.unused (e j) zero_table (g.spare j below).0 (spent (e j)) same in
      record {
        same_root = new.same_root ∙ g.same_root;
        inv = record {
          root = new.inv.root;
          whole = new.inv.whole;
          links = new.inv.links;
          pool = new.inv.pool;
          reserve = record {
            spare = λ j from below. absurd (omega arith);
            apart = λ j k from less below. absurd (omega arith);
          };
        };
        owned =
            Owned-same s s' h new.same_root
              (λ x t there. new.others x (new.unused x t there (spent x)) ∙ there) g.owned;
        spare = λ j below. elim (Bool-cases (j == i)) [
          | inl now ↦ rw now (new.empty, new.loose, new.pos, new.small)
          | inr earlier ↦
              let old = g.spare j (omega (arith, ne_of_test _ _ earlier)) in
              rw earlier (
                new.others (e j) (others j (omega (arith, ne_of_test _ _ earlier))) ∙ old.0,
                old.1,
                old.2,
                old.3,
              )
        ];
        apart = λ j k less below. elim (Bool-cases (k == i)) [
          | inl now ↦
              rw (now, test_of_ne j i (omega (arith, eq_of_test _ _ now)))
                (others j (omega (arith, eq_of_test _ _ now)))
          | inr earlier ↦
              rw (earlier, test_of_ne j i (omega (arith, ne_of_test _ _ earlier)))
                (g.apart j k less (omega (arith, ne_of_test _ _ earlier)))
        ];
        before = λ j below. elim (Bool-cases (j == i)) [
          | inl now ↦ rw now (sym (g.loose f new.loose others) ∙ unseen)
          | inr earlier ↦ rw earlier (g.before j (omega (arith, ne_of_test _ _ earlier)))
        ];
        loose = λ x out outside.
            let away : x ≢ f =
              λ same. outside i (omega arith) (rw (test_of_eq i i refl) (sym same)) in
            new.others x away
            ∙ g.loose x out
                (λ j below same. outside j (omega arith) (rw (test_of_ne j i (omega arith)) same));
        foreign = g.foreign;
      }

  refused-Filled :
      (e : ℕ → ℕ) (i : ℕ) (s s' : Ept) (h : Shape)
      → Filled e i s h
      → s'.tables ≡ s.tables
      → s'.ept_pml4 ≡ s.ept_pml4
      → Inv (with_reserve e preallocated_limit s') h
      → Filled e i s' h
  refused-Filled e i s s' h g same root inv = record {
    same_root = root ∙ g.same_root;
    inv = inv;
    owned = Owned-same s s' h root (λ f t there. ap (λ (m : Memory). m f) same ∙ there) g.owned;
    spare = λ j below.
        let old = g.spare j below in
        (ap (λ (m : Memory). m (e j)) same ∙ old.0, old.1, old.2, old.3);
    apart = g.apart;
    before = g.before;
    loose = λ x out outside. ap (λ (m : Memory). m x) same ∙ g.loose x out outside;
    foreign = g.foreign;
  }

  allocated-Stepped :
      (e : ℕ → ℕ) (i : ℕ) (s s' s'' : Ept) (h : Shape) (a : Option ℕ)
      → Filled e i s h
      → with_reserve e preallocated_limit s' ≡ s''
      → s'.preallocated_entries ≡ s.preallocated_entries
      → s'.preallocated_entries_count ≡ s.preallocated_entries_count
      → Allocated (with_reserve e preallocated_limit s) h (ok a s'')
      → Stepped e i s h (ok a s')
  allocated-Stepped e i s s' s'' h a g here entries count (refused same root mtrrs spares inv) =
      let back : s'' ≡ with_reserve e preallocated_limit s' = sym here in
      no_more
        (refused-Filled e i s s' h g (ap (λ (u : Ept). u.tables) here ∙ same)
          (ap (λ (u : Ept). u.ept_pml4) here ∙ root) (subst (λ u. Inv u h) back inv))
        entries count
  allocated-Stepped e i s s' s'' h _ g here entries count (got {g = f} new) =
      let back : s'' ≡ with_reserve e preallocated_limit s' = sym here in
      one_more
        (Got-Filled e i s s' h f g
          (subst (λ u. Got (with_reserve e preallocated_limit s) h f u) back new))
        entries count

  allocate-Stepped :
      (e : ℕ → ℕ) (i : ℕ) (s : Ept) (h : Shape) (r : Run (Option ℕ))
      → Filled e i s h
      → Allocated (with_reserve e preallocated_limit s) h (map_run e preallocated_limit r)
      → r ≡ map_run s.preallocated_entries s.preallocated_entries_count r
      → Stepped e i s h r
  allocate-Stepped e i s h fault g new same = absurd (not-Allocated new)
    where
      not-Allocated : ¬ Allocated (with_reserve e preallocated_limit s) h fault
      not-Allocated x = elim x [ ]
  allocate-Stepped e i s h (ok a s') g new same =
      let kept = ap (state_of s') same in
      allocated-Stepped e i s s' (with_reserve e preallocated_limit s') h a g refl
        (ap (λ (u : Ept). u.preallocated_entries) kept)
        (ap (λ (u : Ept). u.preallocated_entries_count) kept) new

  allocate_ept_entry-Stepped :
      (e : ℕ → ℕ) (i : ℕ) (s : Ept) (h : Shape)
      → Filled e i s h
      → Stepped e i s h (allocate_ept_entry false s)
  unfolding allocate_ept_entry
  allocate_ept_entry-Stepped e i s h g =
      allocate-Stepped e i s h (allocate_from_pool s) g
        (subst (λ r. Allocated (with_reserve e preallocated_limit s) h r)
          (Commutes-allocate_from_pool e preallocated_limit s)
          (allocate_ept_entry-Allocated false (with_reserve e preallocated_limit s) h g.inv
            (omega arith)))
        (Commutes-allocate_from_pool s.preallocated_entries s.preallocated_entries_count s)

  -- How the loop ends that is to bring the entries to `total`.
  pub data Filling (total : ℕ) (h : Shape) : Run Bool → Type 0 where
    full :
        {s' : Ept}
        → Filled s'.preallocated_entries total s' h
        → s'.preallocated_entries_count ≡ 0
        → Filling total h (ok true s')
    short :
        {s' : Ept} (n : ℕ)
        → n < total
        → Filled s'.preallocated_entries n s' h
        → s'.preallocated_entries_count ≡ 0
        → s'.preallocated_entries n ≡ 0
        → Filling total h (ok false s')

  after-Stepped :
      (i left : ℕ) (s : Ept) (h : Shape) (r : Run (Option ℕ))
      → s.preallocated_entries_count ≡ 0
      → ((j : ℕ) → i ≤ j → s.preallocated_entries j ≡ 0)
      → ((s' : Ept)
          → Filled s'.preallocated_entries (i + 1) s' h
          → s'.preallocated_entries_count ≡ 0
          → ((j : ℕ) → i + 1 ≤ j → s'.preallocated_entries j ≡ 0)
          → Filling (i + suc left) h (fill_preallocated (i + 1) left s'))
      → Stepped s.preallocated_entries i s h r
      → Filling (i + suc left) h (elim r as (λ _. Run Bool) [
        | ok made s' ↦
            (elim made as (λ _. Ept → Run Bool) [
              | none ↦ pure false
              | some entry ↦ (set_preallocated i entry >>= λ _. fill_preallocated (i + 1) left)
            ])
              s'
        | fault ↦ fault
      ])
  unfolding set_preallocated
  after-Stepped i left s h _ none_used rest go_on (no_more {s'} g entries count) =
      short i (omega arith) (subst (λ e. Filled e i s' h) (sym entries) g) (count ∙ none_used)
        (ap (λ (e : ℕ → ℕ). e i) entries ∙ rest i (omega arith))
  after-Stepped i left s h _ none_used rest go_on (one_more {f} {s'} g entries count) =
      let s₂ = record s' { preallocated_entries = update s'.preallocated_entries i f } in
      go_on s₂
        (moved-Filled (update s'.preallocated_entries i f) (i + 1) s' h
          (subst (λ e. Filled (update e i f) (i + 1) s' h) (sym entries) g))
        (count ∙ none_used)
        (λ j from.
          rw (test_of_ne j i (omega arith))
            (ap (λ (e : ℕ → ℕ). e j) entries ∙ rest j (omega arith)))
    where
      moved-Filled :
          (e : ℕ → ℕ) (n : ℕ) (s' : Ept) (h : Shape)
          → Filled e n s' h
          → Filled e n (record s' { preallocated_entries = e }) h
      moved-Filled e n s' h g = record {
        same_root = g.same_root;
        inv = g.inv;
        owned = g.owned;
        spare = g.spare;
        apart = g.apart;
        before = g.before;
        loose = g.loose;
        foreign = g.foreign;
      }

  pub fill_preallocated-Filling :
      (left i : ℕ) (s : Ept) (h : Shape)
      → Filled s.preallocated_entries i s h
      → s.preallocated_entries_count ≡ 0
      → ((j : ℕ) → i ≤ j → s.preallocated_entries j ≡ 0)
      → Filling (i + left) h (fill_preallocated i left s)
  unfolding fill_preallocated
  fill_preallocated-Filling zero i s h g none_used rest =
      let all : i + 0 ≡ i = omega arith in rw all (full g none_used)
  fill_preallocated-Filling (suc left) i s h g none_used rest =
      after-Stepped i left s h (allocate_ept_entry false s) none_used rest
        (λ s' g' none_used' rest'.
          subst (λ t. Filling t h (fill_preallocated (i + 1) left s')) (omega arith)
            (fill_preallocated-Filling left (i + 1) s' h g' none_used' rest'))
        (allocate_ept_entry-Stepped s.preallocated_entries i s h g)
