-- ===== src/Ept/Tables/Init/Teardown.antt =====
-- Taking down what `EptInitialization` has made (DeviceMon/ept.cpp).
use device_mon.Prelude.{
  ℕ, zero, suc, ◌+◌, ◌≤◌, ◌<◌, ◌≡◌, refl, sym, ap, ◌∙◌, inl, inr, ◌⊎◌, ◌≢◌, none, arith, update,
  ◌==◌, Bool-cases, Option-cases, test_of_eq, test_of_ne, eq_of_test, ne_of_test,
}
use mathlib.Core.Path.{subst}
use device_mon.Ept.Tables.{Ept, ok, ◌>>=◌, preallocated_limit}
use device_mon.Ept.Tables.Walk.{Memory}
use device_mon.Ept.Tables.Inv.{Shape}
use device_mon.Ept.Tables.Destruct.{
  free_preallocated, free_unused_preallocated_entries, destruct_tables,
}
use device_mon.Ept.Tables.Destruct.Subtree.{Reaches}
use device_mon.Ept.Tables.Destruct.Freed.{with_tables, free_table-ok, free_table-lost}
use device_mon.Ept.Tables.Destruct.Spares.{preallocated-freed}
use device_mon.Ept.Tables.Destruct.Complete.{Owned-Reaches}
use device_mon.Ept.Tables.Destruct.Terminate.{destruct_tables-Frees}
use device_mon.Ept.Tables.Init.Fill.{Filled}

-- Whether a table is among the first `i` entries.
among : (e : ℕ → ℕ) (i x : ℕ) → ((j : ℕ) × (j < i) × (e j ≡ x)) ⊎ ((j : ℕ) → j < i → e j ≢ x)
among e zero x = inr (λ j below. absurd (omega arith))
among e (suc i) x = elim (Bool-cases (e i == x)) [
  | inl here ↦ inl (i, omega arith, eq_of_test _ _ here)
  | inr away ↦ elim (among e i x) [
    | inl (j, below, same) ↦ inl (j, omega arith, same)
    | inr none_before ↦ inr (λ j below. elim (Bool-cases (j == i)) [
      | inl last ↦ rw (eq_of_test _ _ last) (ne_of_test _ _ away)
      | inr earlier ↦ none_before j (omega (arith, ne_of_test _ _ earlier))
    ])
  ]
]

-- The loop stops at the first null pointer.
free_preallocated-stop :
    (k left i : ℕ) (s : Ept)
    → k < left
    → s.preallocated_entries (i + k) ≡ 0
    → ((j : ℕ) → i ≤ j → j < i + k → s.preallocated_entries j ≢ 0)
    → free_preallocated i left s ≡ free_preallocated i k s
unfolding free_preallocated
free_preallocated-stop k zero i s less null others = absurd (omega arith)
free_preallocated-stop zero (suc left) i s less null others =
    let here : s.preallocated_entries i ≡ 0 = ap s.preallocated_entries (omega arith) ∙ null in
    rw (test_of_eq (s.preallocated_entries i) 0 here, free_preallocated) refl
free_preallocated-stop (suc k) (suc left) i s less null others =
    let f = s.preallocated_entries i in
    rw (test_of_ne f 0 (others i (omega arith) (omega arith)), free_preallocated)
      (elim (Option-cases (s.tables f)) [
        | inl lost ↦ rw (free_table-lost s f lost, ◌>>=◌) refl
        | inr (t, found) ↦
            rw (free_table-ok s f t found, ◌>>=◌)
              (free_preallocated-stop k left (i + 1) (with_tables s (update s.tables f none))
                (omega arith) (ap s.preallocated_entries (omega arith) ∙ null)
                (λ j from below. others j (omega arith) (omega arith)))
      ])

module _ (m₀ : Memory) (root : ℕ) where
  -- The preallocated tables are freed, and then those that are linked: the memory is as before.
  pub torn_down :
      (e : ℕ → ℕ) (n : ℕ) (s : Ept) (h : Shape) (m₁ : Memory)
      → Filled m₀ root e n s h
      → ((x : ℕ) → ((j : ℕ) → j < n → e j ≢ x) → m₁ x ≡ s.tables x)
      → ((j : ℕ) → j < n → m₁ (e j) ≡ none)
      → (m' : Memory) × (destruct_tables 4 root (with_tables s m₁) ≡ ok tt (with_tables s m'))
        × ((x : ℕ) → m' x ≡ m₀ x)
  torn_down e n s h m₁ g kept gone =
      let level : h.level root ≡ 4 = ap h.level (sym g.same_root) ∙ g.inv.root in
      let unlinked = λ (x : ℕ) (linked : h.level x ≢ 0) (j : ℕ) (below : j < n) (same : e j ≡ x).
        linked (ap h.level (sym same) ∙ (g.spare j below).1) in
      let (m', run, kept', gone') =
        destruct_tables-Frees s.tables h g.inv.links (with_tables s m₁) root level
          (λ x below. kept x (unlinked x below.1)) in
      (
        m',
        run,
        λ x. elim (Bool-cases (h.level x == 0)) [
          | inr busy ↦
              let linked : h.level x ≢ 0 = ne_of_test _ _ busy in
              let reached : Reaches s.tables 4 root x =
                subst (λ r. Reaches s.tables 4 r x) g.same_root
                  (Owned-Reaches s h g.inv.links g.inv.root g.owned x linked) in
              gone' x reached
              ∙ sym (elim (Option-cases (m₀ x)) [
                | inl lost ↦ lost
                | inr (t, there) ↦ absurd (linked (g.foreign x t there))
              ])
          | inl free ↦
              let out : h.level x ≡ 0 = eq_of_test _ _ free in
              kept' x (λ below. below.1 out) ∙ (elim (among e n x) [
                | inl (j, below, same) ↦
                    ap m₁ (sym same) ∙ (gone j below ∙ (sym (g.before j below) ∙ ap m₀ same))
                | inr outside ↦ kept x outside ∙ g.loose x out outside
              ])
        ],
      )

  -- `EptpFreeUnusedPreAllocatedEntries` of the first `n` tables, which are all.
  pub entries-released :
      (n : ℕ) (s : Ept) (h : Shape)
      → Filled m₀ root s.preallocated_entries n s h
      → (n ≡ preallocated_limit) ⊎ ((n < preallocated_limit) × (s.preallocated_entries n ≡ 0))
      → (m' : Memory) × (free_unused_preallocated_entries 0 s ≡ ok tt (with_tables s m'))
        × ((x : ℕ) → ((j : ℕ) → j < n → s.preallocated_entries j ≢ x) → m' x ≡ s.tables x)
        × ((j : ℕ) → j < n → m' (s.preallocated_entries j) ≡ none)
  unfolding free_unused_preallocated_entries
  entries-released n s h g total =
      let (m', run, kept, gone) =
        preallocated-freed n s 0
          (λ j from below. ((g.spare j (omega arith)).0, (g.spare j (omega arith)).2))
          (λ j k from less below. g.apart j k less (omega arith)) in
      (
        m',
        (elim total [
          | inl all ↦ ap (λ n. free_preallocated 0 n s) (sym all)
          | inr (less, null) ↦
              free_preallocated-stop n preallocated_limit 0 s less
                (ap s.preallocated_entries (omega arith) ∙ null)
                (λ j from below. let there = (g.spare j (omega arith)).2 in omega arith)
        ])
            ∙ run,
        λ x out. kept x (λ j from below. out j (omega arith)),
        λ j below. gone j (omega arith) (omega arith),
      )
