-- ===== src/Ept/Tables/Init/Serves.antt =====
-- What the tables that `EptInitialization` returns translate (DeviceMon/ept.cpp).
use device_mon.Prelude.{ℕ, ◌*◌, ◌%◌, ◌^◌, ◌≡◌, Bool, true, false, Option, none, some, List, [], ◌∷◌}
use mathlib.Core.Path.{subst}
use device_mon.Ept.Tables.{
  Pointer, Ept, Run, ok, fault, ◌>>=◌, pure, preallocated_limit, allocate_from_pool,
  construct_tables,
}
use device_mon.Ept.Tables.Walk.{Memory}
use device_mon.Ept.Tables.Inv.{Shape, IsFresh}
use device_mon.Ept.Tables.Destruct.{free_unused_preallocated_entries, destruct_tables}
use device_mon.Ept.Tables.Init.{
  PhysicalMemoryRun, construct_runs, abandon, fill_preallocated, preallocate, build, start_data,
  ept_initialization,
}
use device_mon.Ept.Tables.Init.Build.{Good}
use device_mon.Ept.Tables.Init.Identity.{
  IsIdentity, Grows, RunsMapped, RunsMapped-Grows, Mapping, missed, reached,
  construct_tables-Mapping, Built, built, unbuilt, construct_runs-Built,
}
use device_mon.Ept.Tables.Init.Result.{root_shape, with_root, root-Good}
use device_mon.Ept.Tables.Init.Keeps.{Kept-Grows, Keeps, keeps, fill_preallocated-Keeps}

-- If data are returned, `Q` holds of the state then.
data Serves (Q : Ept → Type 0) : Run Bool → Type 0 where
  serves : {s' : Ept} → Q s' → Serves Q (ok true s')
  fails : {s' : Ept} → Serves Q (ok false s')
  faults : Serves Q fault

module _ (Q : Ept → Type 0) (root : ℕ) where
  abandon-Serves : (s : Ept) → Serves Q (abandon root s)
  unfolding abandon
  abandon-Serves s = after_destruction (destruct_tables 4 root s)
    where
      after_destruction :
          (r : Run (Unit {0}))
          → Serves Q (elim r as (λ _. Run Bool) [ ok a s' ↦ pure false s' | fault ↦ fault ])
      after_destruction (ok a s') = fails
      after_destruction fault = faults

  after_release :
      (r : Run (Unit {0}))
      → Serves Q (elim r as (λ _. Run Bool) [ ok a s' ↦ abandon root s' | fault ↦ fault ])
  after_release (ok a s') = abandon-Serves s'
  after_release fault = faults

  after_filling :
      (s : Ept) (r : Run Bool)
      → ((s' : Ept) → Grows s s' → Q s')
      → Keeps s r
      → Serves Q (elim r as (λ _. Run Bool) [
        | ok filled s' ↦
            (elim filled as (λ _. Ept → Run Bool) [
              | true ↦ pure true
              | false ↦ (free_unused_preallocated_entries 0 >>= λ _. abandon root)
            ])
              s'
        | fault ↦ fault
      ])
  after_filling s _ holds (keeps {done = true} {s'} kept same) =
      serves (holds s' (Kept-Grows s s' kept same))
  after_filling s _ holds (keeps {done = false} {s'} kept same) =
      after_release (free_unused_preallocated_entries 0 s')

  preallocate-Serves :
      (array : Bool) (s : Ept)
      → IsFresh s.tables s.pool
      → ((s' : Ept) → Grows s s' → Q s')
      → Serves Q (preallocate array root s)
  unfolding preallocate
  preallocate-Serves false s fresh holds = abandon-Serves s
  preallocate-Serves true s fresh holds =
      after_filling s (fill_preallocated 0 preallocated_limit s) holds
        (fill_preallocated-Keeps preallocated_limit 0 s fresh)

-- The runs and the page of the local APIC are mapped.
abbrev pub AllMapped : List PhysicalMemoryRun → (apic_base : ℕ) → Ept → Type 0
AllMapped runs apic_base s = RunsMapped runs s × IsIdentity (apic_base * 4096 % 2 ^ 64) s

module _ (m₀ : Memory) (root : ℕ) (runs : List PhysicalMemoryRun) (apic_base : ℕ) where
  after_apic :
      (array : Bool) (s : Ept) (r : Run (Option Pointer))
      → RunsMapped runs s
      → Mapping m₀ root s (apic_base * 4096 % 2 ^ 64) r
      → Serves (AllMapped runs apic_base) (elim r as (λ _. Run Bool) [
        | ok entry s' ↦
            (elim entry as (λ _. Ept → Run Bool) [
              | none ↦ abandon root
              | some p ↦ preallocate array root
            ])
              s'
        | fault ↦ fault
      ])
  after_apic array s _ mapped (missed {s'} h' g) = abandon-Serves (AllMapped runs apic_base) root s'
  after_apic array s _ mapped (reached {s'} h' g grows there) =
      preallocate-Serves (AllMapped runs apic_base) root array s' g.inv.pool (λ s'' grows'. (
        RunsMapped-Grows runs s' s'' grows' (RunsMapped-Grows runs s s' grows mapped),
        grows' (apic_base * 4096 % 2 ^ 64) there,
      ))

  after_runs :
      (array : Bool) (s : Ept) (r : Run Bool)
      → Built m₀ root s (RunsMapped runs) r
      → Serves (AllMapped runs apic_base) (elim r as (λ _. Run Bool) [
        | ok mapped s' ↦
            (elim mapped as (λ _. Ept → Run Bool) [
              | false ↦ abandon root
              | true ↦
                  (construct_tables false 4 root (apic_base * 4096 % 2 ^ 64) >>= λ entry.
                  elim entry [ none ↦ abandon root | some p ↦ preallocate array root ])
            ])
              s'
        | fault ↦ fault
      ])
  after_runs array s _ (built {s'} h' g grows mapped) =
      after_apic array s' (construct_tables false 4 root (apic_base * 4096 % 2 ^ 64) s') mapped
        (construct_tables-Mapping m₀ root s' h' (apic_base * 4096 % 2 ^ 64) g)
  after_runs array s _ (unbuilt {s'}) = abandon-Serves (AllMapped runs apic_base) root s'

  build-Serves :
      (array : Bool) (s : Ept) (h : Shape)
      → Good m₀ root s h
      → Serves (AllMapped runs apic_base) (build array runs apic_base root s)
  unfolding build
  build-Serves array s h g =
      after_runs array s (construct_runs root runs s) (construct_runs-Built m₀ root runs s h g)

pool-Serves :
    (array : Bool) (runs : List PhysicalMemoryRun) (apic_base : ℕ) (s : Ept)
    (pool : List (Option ℕ))
    → IsFresh s.tables pool
    → Serves
        (AllMapped runs apic_base)
        (elim (allocate_from_pool (record s { pool = pool })) as (λ _. Run Bool) [
          | ok found s' ↦
              (elim found as (λ _. Ept → Run Bool) [
                | none ↦ pure false
                | some root ↦ (start_data root >>= λ _. build array runs apic_base root)
              ])
                s'
          | fault ↦ fault
        ])
unfolding allocate_from_pool start_data
pool-Serves array runs apic_base s [] fresh = fails
pool-Serves array runs apic_base s (none ∷ pool) fresh = fails
pool-Serves array runs apic_base s (some root ∷ pool) fresh =
    build-Serves s.tables root runs apic_base array (with_root root pool s) (root_shape root)
      (root-Good s root pool fresh)

served : {Q : Ept → Type 0} (s' : Ept) → Serves Q (ok true s') → Q s'
served s' (serves held) = held

initialization-Serves :
    (data_given array : Bool) (runs : List PhysicalMemoryRun) (apic_base : ℕ) (s : Ept)
    → IsFresh s.tables s.pool
    → Serves (AllMapped runs apic_base) (ept_initialization data_given array runs apic_base s)
unfolding ept_initialization
initialization-Serves true array runs apic_base s fresh =
    pool-Serves array runs apic_base s s.pool fresh
initialization-Serves false array runs apic_base s fresh = fails

-- Where the frames that the pool hands out are not zero, are below 2^36, hold no table and differ
-- from one another: if `EptInitialization` returns data, every page of every run of the physical
-- memory, and the page of the local APIC, is translated to the frame of its own number, of which
-- the tables know 36 bits, with read, write and execute access.
pub ept_initialization-AllMapped :
    (data_given array : Bool) (runs : List PhysicalMemoryRun) (apic_base : ℕ) (s s' : Ept)
    → IsFresh s.tables s.pool
    → ept_initialization data_given array runs apic_base s ≡ ok true s'
    → AllMapped runs apic_base s'
ept_initialization-AllMapped data_given array runs apic_base s s' fresh done = served s' (
    subst (Serves (AllMapped runs apic_base)) done
      (initialization-Serves data_given array runs apic_base s fresh))
