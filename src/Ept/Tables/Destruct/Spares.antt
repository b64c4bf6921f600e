-- ===== src/Ept/Tables/Destruct/Spares.antt =====
-- The memory after `EptpFreeUnusedPreAllocatedEntries` (DeviceMon/ept.cpp).
use device_mon.Prelude.{
  ℕ, zero, suc, ◌+◌, ◌-◌, ◌≤◌, ◌<◌, ◌≡◌, refl, sym, ◌∙◌, inl, inr, Bool-cases, eq_of_test,
  ne_of_test, test_of_eq, test_of_ne, false, ◌≢◌, none, some, arith, ◌==◌, update,
}
use device_mon.Ept.Tables.{Ept, ok, ◌>>=◌, zero_table, preallocated_limit}
use device_mon.Ept.Tables.Walk.{Memory}
use device_mon.Ept.Tables.Inv.{Shape, Reserve}
use device_mon.Ept.Tables.Destruct.{free_preallocated, free_unused_preallocated_entries}
use device_mon.Ept.Tables.Destruct.Freed.{with_tables, free_table-ok}

pub preallocated-freed :
    (left : ℕ) (s : Ept) (i : ℕ)
    → ((j : ℕ)
        → i ≤ j
        → j < i + left
        → (s.tables (s.preallocated_entries j) ≡ some zero_table) × (0 < s.preallocated_entries j))
    → ((j k : ℕ)
        → i ≤ j
        → j < k
        → k < i + left
        → s.preallocated_entries j ≢ s.preallocated_entries k)
    → (m' : Memory) × (free_preallocated i left s ≡ ok tt (with_tables s m'))
      × ((x : ℕ)
          → ((j : ℕ) → i ≤ j → j < i + left → s.preallocated_entries j ≢ x)
          → m' x ≡ s.tables x)
      × ((j : ℕ) → i ≤ j → j < i + left → m' (s.preallocated_entries j) ≡ none)
unfolding free_preallocated
preallocated-freed zero s i spare apart =
    (s.tables, refl, λ x out. refl, λ j from below. absurd (omega arith))
preallocated-freed (suc left) s i spare apart =
    let f = s.preallocated_entries i in
    let (there, positive) = spare i (omega arith) (omega arith) in
    let other : (j : ℕ) → i + 1 ≤ j → j < i + suc left → (s.preallocated_entries j == f) ≡ false =
      λ j from below.
        test_of_ne _ _ (λ same. apart i j (omega arith) (omega arith) below (sym same)) in
    let (m', run, kept, gone) =
      preallocated-freed left (with_tables s (update s.tables f none)) (i + 1)
        (λ j from below. (
          rw (other j from (omega arith)) (spare j (omega arith) (omega arith)).0,
          (spare j (omega arith) (omega arith)).1,
        ))
        (λ j k from less below. apart j k (omega arith) less (omega arith)) in
    (
      m',
      rw (test_of_ne f 0 (omega arith), free_preallocated)
          (rw (free_table-ok s f zero_table there, ◌>>=◌) run),
      λ x out.
          kept x (λ j from below. out j (omega arith) (omega arith))
          ∙ rw (test_of_ne x f (λ same. out i (omega arith) (omega arith) (sym same))) refl,
      λ j from below. elim (Bool-cases (j == i)) [
        | inl now ↦ rw (eq_of_test _ _ now) (
            kept f
              (λ k after under same. apart i k (omega arith) (omega arith) (omega arith) (sym same))
            ∙ rw (test_of_eq f f refl) refl)
        | inr later ↦ gone j (omega (arith, ne_of_test _ _ later)) (omega arith)
      ],
    )

pub unused-freed :
    (s : Ept) (h : Shape)
    → Reserve s.tables h s.preallocated_entries s.preallocated_entries_count
    → (m' : Memory) × (free_unused_preallocated_entries s.preallocated_entries_count s
        ≡ ok tt (with_tables s m'))
      × ((x : ℕ)
          → ((j : ℕ)
              → s.preallocated_entries_count ≤ j
              → j < preallocated_limit
              → s.preallocated_entries j ≢ x)
          → m' x ≡ s.tables x)
      × ((j : ℕ)
          → s.preallocated_entries_count ≤ j
          → j < preallocated_limit
          → m' (s.preallocated_entries j) ≡ none)
unfolding free_unused_preallocated_entries
unused-freed s h reserve =
    let count = s.preallocated_entries_count in
    let (m', run, kept, gone) =
      preallocated-freed (50 - count) s count
        (λ j from below. let given = reserve.spare j from (omega arith) in (given.0, given.2))
        (λ j k from less below. reserve.apart j k from less (omega arith)) in
    (
      m',
      run,
      λ x out. kept x (λ j from below. out j from (omega arith)),
      λ j from below. gone j from (omega arith),
    )
