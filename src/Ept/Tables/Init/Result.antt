-- ===== src/Ept/Tables/Init/Result.antt =====
-- The results of `EptInitialization`, and `EptTermination` after it (DeviceMon/ept.cpp).
use device_mon.Prelude.{
  ℕ, ◌*◌, ◌%◌, ◌^◌, ◌<◌, ◌≡◌, refl, ap, ◌∙◌, inl, inr, ◌≢◌, Bool, true, false, Option, none, some,
  List, [], ◌∷◌, arith, update, ◌==◌, if◌then◌else◌,
}
use device_mon.Ept.Tables.{
  Pointer, Ept, Run, ok, fault, ◌>>=◌, pure, zero_table, preallocated_limit, allocate_from_pool,
  construct_tables,
}
use device_mon.Ept.Tables.Walk.{Memory}
use device_mon.Ept.Tables.Inv.{Shape, Inv, IsFresh, IsFresh-update}
use device_mon.Ept.Tables.Destruct.{
  free_unused_preallocated_entries, destruct_tables, ept_termination,
}
use device_mon.Ept.Tables.Destruct.Freed.{with_tables}
use device_mon.Ept.Tables.Init.{
  PhysicalMemoryRun, construct_runs, abandon, fill_preallocated, preallocate, build, start_data,
  ept_initialization,
}
use device_mon.Ept.Tables.Init.Build.{Good, Made, made, construct_tables-Made, construct_runs-Made}
use device_mon.Ept.Tables.Init.Fill.{
  Filled, Good-Filled, Filling, full, short, fill_preallocated-Filling,
}
use device_mon.Ept.Tables.Init.Teardown.{torn_down, entries-released}

-- The data are made, and `EptTermination` takes the memory back to what it was; or they are not, and
-- the memory is what it was.
pub data Initialized (s : Ept) : Run Bool → Type 0 where
  initialized :
      {s' : Ept} (h : Shape) (m' : Memory)
      → Inv s' h
      → s'.preallocated_entries_count ≡ 0
      → ept_termination s' ≡ ok tt (with_tables s' m')
      → ((x : ℕ) → m' x ≡ s.tables x)
      → Initialized s (ok true s')
  restored : {s' : Ept} → ((x : ℕ) → s'.tables x ≡ s.tables x) → Initialized s (ok false s')

module _ (s₀ : Ept) (root : ℕ) where
  abandon-Initialized :
      (n : ℕ) (s : Ept) (h : Shape) (m₁ : Memory)
      → Filled s₀.tables root s.preallocated_entries n s h
      → ((x : ℕ) → ((j : ℕ) → j < n → s.preallocated_entries j ≢ x) → m₁ x ≡ s.tables x)
      → ((j : ℕ) → j < n → m₁ (s.preallocated_entries j) ≡ none)
      → Initialized s₀ (abandon root (with_tables s m₁))
  unfolding abandon
  abandon-Initialized n s h m₁ g kept gone =
      let (m', run, same) = torn_down s₀.tables root s.preallocated_entries n s h m₁ g kept gone in
      rw (run, ◌>>=◌) (restored same)

  Good-restored : (s : Ept) (h : Shape) → Good s₀.tables root s h → Initialized s₀ (abandon root s)
  Good-restored s h g =
      abandon-Initialized 0 s h s.tables (Good-Filled s₀.tables root s h g) (λ x out. refl)
        (λ j below. absurd (omega arith))

  Filled-Inv :
      (s : Ept) (h : Shape)
      → Filled s₀.tables root s.preallocated_entries preallocated_limit s h
      → Inv s h
  Filled-Inv s h g = record {
    root = g.inv.root;
    whole = g.inv.whole;
    links = g.inv.links;
    pool = g.inv.pool;
    reserve = record {
      spare = λ j from below. g.spare j below;
      apart = λ j k from less below. g.apart j k less below;
    };
  }

  full-Initialized :
      (s : Ept) (h : Shape)
      → Filled s₀.tables root s.preallocated_entries preallocated_limit s h
      → s.preallocated_entries_count ≡ 0
      → Initialized s₀ (ok true s)
  unfolding ept_termination
  full-Initialized s h g none_used =
      let (m₁, freed, kept, gone) =
        entries-released s₀.tables root preallocated_limit s h g (inl refl) in
      let (m', run, same) =
        torn_down s₀.tables root s.preallocated_entries preallocated_limit s h m₁ g kept gone in
      initialized h m' (Filled-Inv s h g) none_used
        (ap (λ c. (free_unused_preallocated_entries c >>= λ _. destruct_tables 4 s.ept_pml4) s)
            none_used
          ∙ (rw (freed, ◌>>=◌)
              (ap (λ r. destruct_tables 4 r (with_tables s m₁)) g.same_root ∙ run)))
        same

  Filling-Initialized :
      (h : Shape) (r : Run Bool)
      → Filling s₀.tables root preallocated_limit h r
      → Initialized s₀ (elim r as (λ _. Run Bool) [
        | ok filled s' ↦
            (elim filled as (λ _. Ept → Run Bool) [
              | true ↦ pure true
              | false ↦ (free_unused_preallocated_entries 0 >>= λ _. abandon root)
            ])
              s'
        | fault ↦ fault
      ])
  Filling-Initialized h _ (full {s'} g none_used) = full-Initialized s' h g none_used
  Filling-Initialized h _ (short {s'} n less g none_used null) =
      let (m₁, freed, kept, gone) = entries-released s₀.tables root n s' h g (inr (less, null)) in
      rw (freed, ◌>>=◌) (abandon-Initialized n s' h m₁ g kept gone)

  preallocate-Initialized :
      (array : Bool) (s : Ept) (h : Shape)
      → Good s₀.tables root s h
      → ((j : ℕ) → s.preallocated_entries j ≡ 0)
      → s.preallocated_entries_count ≡ 0
      → Initialized s₀ (preallocate array root s)
  unfolding preallocate
  preallocate-Initialized true s h g empty none_used =
      Filling-Initialized h (fill_preallocated 0 preallocated_limit s) (
        fill_preallocated-Filling s₀.tables root preallocated_limit 0 s h
          (Good-Filled s₀.tables root s h g) none_used (λ j from. empty j))
  preallocate-Initialized false s h g empty none_used = Good-restored s h g

  -- The part after a run that made tables.
  after-Made :
      {A : Type 0} (s : Ept) (k : A → Ept → Run Bool) (r : Run A)
      → Made s₀.tables root s r
      → ((j : ℕ) → s.preallocated_entries j ≡ 0)
      → s.preallocated_entries_count ≡ 0
      → ((a : A) (s' : Ept) (h : Shape)
          → Good s₀.tables root s' h
          → ((j : ℕ) → s'.preallocated_entries j ≡ 0)
          → s'.preallocated_entries_count ≡ 0
          → Initialized s₀ (k a s'))
      → Initialized s₀ (elim r as (λ _. Run Bool) [ ok a s' ↦ k a s' | fault ↦ fault ])
  after-Made s k _ (made {a} {s'} h g entries count) empty none_used next =
      next a s' h g (λ j. ap (λ (e : ℕ → ℕ). e j) entries ∙ empty j) (count ∙ none_used)

  build-Initialized :
      (array : Bool) (runs : List PhysicalMemoryRun) (apic_base : ℕ) (s : Ept) (h : Shape)
      → Good s₀.tables root s h
      → ((j : ℕ) → s.preallocated_entries j ≡ 0)
      → s.preallocated_entries_count ≡ 0
      → Initialized s₀ (build array runs apic_base root s)
  unfolding build
  build-Initialized array runs apic_base s h g empty none_used =
      after-Made s _ (construct_runs root runs s) (construct_runs-Made s₀.tables root runs s h g)
        empty none_used
        (λ mapped s₁ h₁ g₁ empty₁ none₁.
          elim mapped
            as (λ (mapped : Bool). Initialized s₀ (
              elim mapped as (λ _. Ept → Run Bool) [
                | false ↦ abandon root
                | true ↦
                    (construct_tables false 4 root (apic_base * 4096 % 2 ^ 64) >>= λ entry.
                    elim entry [ none ↦ abandon root | some p ↦ preallocate array root ])
              ]
                s₁)) [
                  | false ↦ Good-restored s₁ h₁ g₁
                  | true ↦
                      after-Made s₁ _ (construct_tables false 4 root (apic_base * 4096 % 2 ^ 64) s₁)
                        (construct_tables-Made s₀.tables root s₁ h₁ (apic_base * 4096 % 2 ^ 64) g₁)
                        empty₁ none₁
                        (λ entry s₂ h₂ g₂ empty₂ none₂.
                          elim entry
                            as (λ (entry : Option Pointer). Initialized s₀ (
                              elim entry as (λ _. Ept → Run Bool) [
                                | none ↦ abandon root
                                | some p ↦ preallocate array root
                              ]
                                s₂)) [
                                  | none ↦ Good-restored s₂ h₂ g₂
                                  | some p ↦ preallocate-Initialized array s₂ h₂ g₂ empty₂ none₂
                                ])
                ])

-- The root alone is linked.
abbrev pub root_shape : ℕ → Shape
root_shape root = record { level = λ x. if x == root then 4 else 0; prefix = λ x. 0 }

-- The state after the root is allocated.
abbrev pub with_root : ℕ → List (Option ℕ) → Ept → Ept
with_root root pool s = record s {
  tables = update s.tables root (some zero_table);
  pool = pool;
  ept_pml4 = root;
  preallocated_entries = λ j. 0;
  preallocated_entries_count = 0;
}

pub root-Good :
    (s : Ept) (root : ℕ) (pool : List (Option ℕ))
    → IsFresh s.tables (some root ∷ pool)
    → Good s.tables root (with_root root pool s) (root_shape root)
root-Good s root pool fresh = record {
  same_root = refl;
  inv = record {
    root = ground arith;
    whole = refl;
    links = record {
      present = λ f lost. ground arith;
      below = λ f i t found two inside full. absurd (ground arith);
    };
    pool = IsFresh-update s.tables root (some zero_table) pool fresh.3 fresh.4;
    reserve = record {
      spare = λ j from below. absurd (omega arith);
      apart = λ j k from less below. absurd (omega arith);
    };
  };
  owned = λ x linked. inl (ground arith);
  loose = λ x out. ground arith;
  foreign = λ x t there. ground (arith, fresh.0);
}

pool-Initialized :
    (array : Bool) (runs : List PhysicalMemoryRun) (apic_base : ℕ) (s : Ept)
    (pool : List (Option ℕ))
    → IsFresh s.tables pool
    → Initialized s (elim (allocate_from_pool (record s { pool = pool })) as (λ _. Run Bool) [
      | ok found s' ↦
          (elim found as (λ _. Ept → Run Bool) [
            | none ↦ pure false
            | some root ↦ (start_data root >>= λ _. build array runs apic_base root)
          ])
            s'
      | fault ↦ fault
    ])
unfolding allocate_from_pool start_data
pool-Initialized array runs apic_base s [] fresh = restored (λ x. refl)
pool-Initialized array runs apic_base s (none ∷ pool) fresh = restored (λ x. refl)
pool-Initialized array runs apic_base s (some root ∷ pool) fresh =
    build-Initialized s root array runs apic_base (with_root root pool s) (root_shape root)
      (root-Good s root pool fresh) (λ j. refl) refl

-- Where the frames that the pool hands out are not zero, are below 2^36, hold no table and differ
-- from one another, `EptInitialization` does not fault. If it returns data, the tables are well
-- formed, no preallocated table is in use, and `EptTermination` would take the memory back to
-- what it was before; if it returns none, whatever could not be allocated, the memory is what it
-- was before.
pub ept_initialization-Initialized :
    (data_given array : Bool) (runs : List PhysicalMemoryRun) (apic_base : ℕ) (s : Ept)
    → IsFresh s.tables s.pool
    → Initialized s (ept_initialization data_given array runs apic_base s)
unfolding ept_initialization
ept_initialization-Initialized true array runs apic_base s fresh =
    pool-Initialized array runs apic_base s s.pool fresh
ept_initialization-Initialized false array runs apic_base s fresh = restored (λ x. refl)
