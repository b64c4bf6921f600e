-- ===== src/Ept/Tables/Destruct/Freed.antt =====
-- The memory after `EptpDestructTables` (DeviceMon/ept.cpp), level by level.
use device_mon.Prelude.{
  ℕ, zero, suc, ◌+◌, ◌*◌, ◌≤◌, ◌<◌, ◌≡◌, refl, sym, ◌∙◌, inl, inr, Bool-cases, eq_of_test,
  ne_of_test, test_of_eq, ◌≢◌, none, some, arith, ◌==◌, update,
}
use device_mon.Ept.Tables.{Table, Ept, Run, ok, fault, ◌>>=◌}
use device_mon.Ept.Tables.Walk.{Memory}
use device_mon.Ept.Tables.Inv.{Shape, Links, linked-some}
use device_mon.Ept.Tables.Leaf.{read-ok}
use device_mon.Ept.Tables.Destruct.{free_table, free_entry, free_entries, destruct_with}
use device_mon.Ept.Tables.Destruct.Subtree.{
  IsBelow, Reaches, IsBelow-self, IsBelow-up, IsBelow-level, IsBelow-apart, Reaches-IsBelow,
}

abbrev pub with_tables : Ept → Memory → Ept
with_tables s m = record s { tables = m }

-- What a run that frees the table `g` of level `l` did: `m` is the memory that the walks go by.
abbrev pub IsFreed : Memory → Shape → (l g : ℕ) → Ept → Run (Unit {0}) → Type 0
IsFreed m h l g s run =
    (m' : Memory) × (run ≡ ok tt (with_tables s m'))
    × ((x : ℕ) → ¬ IsBelow h l (h.prefix g) x → m' x ≡ s.tables x)
    × ((x : ℕ) → Reaches m l g x → m' x ≡ none)

-- The run works wherever the memory is still as it was below the table.
abbrev pub Frees : Memory → Shape → ℕ → (ℕ → Ept → Run (Unit {0})) → Type 0
Frees m h l free =
    (s : Ept) (g : ℕ)
    → h.level g ≡ l
    → ((x : ℕ) → IsBelow h l (h.prefix g) x → s.tables x ≡ m x)
    → IsFreed m h l g s (free g s)

pub free_table-ok :
    (s : Ept) (g : ℕ) (t : Table)
    → s.tables g ≡ some t
    → free_table g s ≡ ok tt (with_tables s (update s.tables g none))
unfolding free_table
free_table-ok s g t found = rw (found, free_table)

pub free_table-lost : (s : Ept) (f : ℕ) → s.tables f ≡ none → free_table f s ≡ fault
unfolding free_table
free_table-lost s f lost = rw (lost, free_table)

module _ (m : Memory) (h : Shape) (links : Links m h) where
  pub free_table-Frees : Frees m h 1 free_table
  unfolding Reaches
  free_table-Frees s g level same =
      let (t, found) = linked-some g links (omega arith) in
      (
        update s.tables g none,
        free_table-ok s g t (same g (IsBelow-self h 0 g level) ∙ found),
        λ x out. elim (Bool-cases (x == g)) [
          | inl here ↦ absurd (out (rw (eq_of_test _ _ here) (IsBelow-self h 0 g level)))
          | inr away ↦ ground arith
        ],
        λ x here. ground arith,
      )

  module _ (l : ℕ) (free : ℕ → Ept → Run (Unit {0})) (frees : Frees m h (suc l) free) (g : ℕ)
      (t : Table) (level : h.level g ≡ suc (suc l)) (found : m g ≡ some t) where
    -- Below the entry `j`.
    abbrev IsSlot : (j x : ℕ) → Type 0
    IsSlot j x = IsBelow h (suc l) (h.prefix g * 512 + j) x

    reached-IsSlot :
        (j x : ℕ)
        → j < 512
        → (t j).physial_address ≢ 0
        → Reaches m (suc l) (t j).physial_address x
        → IsSlot j x
    reached-IsSlot j x inside leads reached =
        let next = links.below g j t found (omega arith) inside (omega arith) in
        rw (sym next.1) (Reaches-IsBelow h l (t j).physial_address x links (ground arith) reached)

    IsSlot-apart : (i j x : ℕ) → i ≢ j → IsSlot i x → ¬ IsSlot j x
    IsSlot-apart i j x ne = λ below.
        IsBelow-apart h (suc l) (h.prefix g * 512 + i) (h.prefix g * 512 + j) x below (omega arith)

    -- What the body of the loop does at index `i`.
    entry-freed :
        (s : Ept) (i : ℕ)
        → i < 512
        → s.tables g ≡ some t
        → ((x : ℕ) → IsSlot i x → s.tables x ≡ m x)
        → (m' : Memory) × (free_entry free g i s ≡ ok tt (with_tables s m'))
          × ((x : ℕ) → ¬ IsSlot i x → m' x ≡ s.tables x)
          × ((x : ℕ)
              → (t i).physial_address ≢ 0
              → Reaches m (suc l) (t i).physial_address x
              → m' x ≡ none)
    unfolding free_entry
    entry-freed s i inside here same = elim (Bool-cases ((t i).physial_address == 0)) [
      | inl void ↦ (
        s.tables,
        rw (read-ok s g i t here, free_entry, ◌>>=◌) (rw void refl),
        λ x out. refl,
        λ x leads reached. absurd (leads (eq_of_test _ _ void)),
      )
      | inr busy ↦
          let next =
            links.below g i t found (omega arith) inside (omega (arith, ne_of_test _ _ busy)) in
          let (m', run, kept, gone) =
            frees s (t i).physial_address (ground arith) (rw next.1 same) in
          (
            m',
            rw (read-ok s g i t here, free_entry, ◌>>=◌) (rw busy run),
            rw (sym next.1) kept,
            λ x leads reached. gone x reached,
          )
    ]

    entries-freed :
        (left : ℕ) (s : Ept) (i : ℕ)
        → i + left ≡ 512
        → s.tables g ≡ some t
        → ((j x : ℕ) → i ≤ j → j < 512 → IsSlot j x → s.tables x ≡ m x)
        → (m' : Memory) × (free_entries free g i left s ≡ ok tt (with_tables s m'))
          × ((x : ℕ) → ((j : ℕ) → i ≤ j → j < 512 → ¬ IsSlot j x) → m' x ≡ s.tables x)
          × ((j x : ℕ)
              → i ≤ j
              → j < 512
              → (t j).physial_address ≢ 0
              → Reaches m (suc l) (t j).physial_address x
              → m' x ≡ none)
    unfolding free_entries
    entries-freed zero s i total here same =
        (s.tables, refl, λ x out. refl, λ j x from below. absurd (omega arith))
    entries-freed (suc left) s i total here same =
        let (m₁, run, kept, gone) =
          entry-freed s i (omega arith) here (λ x. same i x (omega arith) (omega arith)) in
        let (m₂, rest, kept', gone') =
          entries-freed left (with_tables s m₁) (i + 1) (omega arith)
            (kept g (IsBelow-level h (suc l) (h.prefix g * 512 + i) g level) ∙ here)
            (λ j x from below slot.
              kept x (IsSlot-apart j i x (omega arith) slot) ∙ same j x (omega arith) below slot) in
        (
          m₂,
          rw (run, free_entries, ◌>>=◌) rest,
          λ x out.
              kept' x (λ j from. out j (omega arith)) ∙ kept x (out i (omega arith) (omega arith)),
          λ j x from below leads reached. elim (Bool-cases (j == i)) [
            | inl now ↦
                let same_index : j ≡ i = eq_of_test _ _ now in
                kept' x (λ k after inside.
                  IsSlot-apart j k x (omega arith) (reached-IsSlot j x below leads reached))
                ∙ gone x (rw (sym same_index) leads) (rw (sym same_index) reached)
            | inr later ↦ gone' j x (omega (arith, ne_of_test _ _ later)) below leads reached
          ],
        )

    table-gone :
        (s : Ept)
        → ((x : ℕ) → IsBelow h (suc (suc l)) (h.prefix g) x → s.tables x ≡ m x)
        → IsFreed m h (suc (suc l)) g s (destruct_with free g s)
    unfolding destruct_with Reaches
    table-gone s same =
        let here : s.tables g ≡ some t = same g (IsBelow-self h (suc l) g level) ∙ found in
        let (m', run, kept, gone) =
          entries-freed 512 s 0 refl here
            (λ j x from below slot. same x (IsBelow-up h (suc l) (h.prefix g) j x below slot)) in
        let still : m' g ≡ some t =
          kept g (λ j from below. IsBelow-level h (suc l) (h.prefix g * 512 + j) g level) ∙ here in
        (
          update m' g none,
          rw (run, destruct_with, ◌>>=◌) (free_table-ok (with_tables s m') g t still),
          λ x out. elim (Bool-cases (x == g)) [
            | inl now ↦ absurd (out (rw (eq_of_test _ _ now) (IsBelow-self h (suc l) g level)))
            | inr away ↦ rw away (
                kept x
                  (λ j from below slot. out (IsBelow-up h (suc l) (h.prefix g) j x below slot)))
          ],
          λ x reached. elim reached [
            | inl now ↦ rw (test_of_eq x g now) refl
            | inr (t', j, found', inside, leads, reached') ↦ elim (Bool-cases (x == g)) [
              | inl now ↦ rw now refl
              | inr away ↦
                  (let same_table : t' ≡ t = cc in
                    rw away (
                      gone j x (omega arith) inside (rw (sym same_table) leads)
                        (rw (sym same_table) reached')))
            ]
          ],
        )

  pub destruct_with-Frees :
      (l : ℕ) (free : ℕ → Ept → Run (Unit {0}))
      → Frees m h (suc l) free
      → Frees m h (suc (suc l)) (destruct_with free)
  destruct_with-Frees l free frees s g level same =
      let (t, found) = linked-some g links (omega arith) in
      table-gone l free frees g t level found s same
