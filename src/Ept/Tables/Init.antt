-- ===== src/Ept/Tables/Init.antt =====
-- `EptInitialization` (DeviceMon/ept.cpp). The fields of `EptData` are set from the start here, and
-- those of the code in the end, where nothing reads them before. `ept_data` and the array of the
-- preallocated tables are no tables: whether they can be allocated are arguments.
pub mod Commute
pub mod Build
pub mod Fill
pub mod Teardown
pub mod Identity
pub mod Keeps
pub mod Serves
pub mod Result
use device_mon.Prelude.{
  ℕ, zero, suc, ◌+◌, ◌*◌, ◌%◌, ◌^◌, Bool, true, false, Option, none, some, List, [], ◌∷◌,
  if◌then◌else◌, update,
}
use device_mon.Ept.Mtrr.{MtrrTable, get_memory_type}
use device_mon.Ept.Tables.{
  Ept, Run, ok, ◌>>=◌, pure, preallocated_limit, allocate_from_pool, allocate_ept_entry,
  construct_tables,
}
use device_mon.Ept.Tables.Destruct.{free_unused_preallocated_entries, destruct_tables}

-- A run of pages of the physical memory.
pub record PhysicalMemoryRun : Type 0 where
  pub base_page : ℕ
  pub page_count : ℕ

-- The word of `EptPointer`: the memory type, the length of the walk less 1, the frame of the root.
unfoldable pub ept_pointer : MtrrTable → (root : ℕ) → ℕ
ept_pointer mtrrs root =
    get_memory_type mtrrs (root * 4096) % 2 ^ 3 + 3 * 2 ^ 3 + root % 2 ^ 36 * 2 ^ 12

-- The loop over the pages of a run, from `i` on with `left` turns: whether all could be mapped.
unfoldable pub construct_pages : (root base i left : ℕ) → Ept → Run Bool
construct_pages root base i zero = pure true
construct_pages root base i (suc left) = do
  entry ← construct_tables false 4 root ((base + i * 4096) % 2 ^ 64)
  elim entry [ none ↦ pure false | some p ↦ construct_pages root base (i + 1) left ]

unfoldable pub construct_runs : (root : ℕ) → List PhysicalMemoryRun → Ept → Run Bool
construct_runs root [] = pure true
construct_runs root (run ∷ runs) = do
  done ← construct_pages root (run.base_page * 4096 % 2 ^ 64) 0 run.page_count
  elim done [ true ↦ construct_runs root runs | false ↦ pure false ]

unfoldable pub abandon : (root : ℕ) → Ept → Run Bool
abandon root = do _ ← destruct_tables 4 root; pure false

unfoldable pub set_preallocated : (i entry : ℕ) → Ept → Run (Unit {0})
set_preallocated i entry s =
    ok tt (record s { preallocated_entries = update s.preallocated_entries i entry })

-- The loop that allocates the preallocated tables, from `i` on with `left` turns.
unfoldable pub fill_preallocated : (i left : ℕ) → Ept → Run Bool
fill_preallocated i zero = pure true
fill_preallocated i (suc left) = do
  made ← allocate_ept_entry false
  elim made [
    | none ↦ pure false
    | some entry ↦ (do _ ← set_preallocated i entry; fill_preallocated (i + 1) left)
  ]

unfoldable pub preallocate : (array : Bool) → (root : ℕ) → Ept → Run Bool
preallocate array root =
    if array
    then (do
      filled ← fill_preallocated 0 preallocated_limit
      elim filled [
        | true ↦ pure true
        | false ↦ (do _ ← free_unused_preallocated_entries 0; abandon root)
      ])
    else abandon root

-- From the tables of the physical memory on.
unfoldable pub build :
    (array : Bool) → List PhysicalMemoryRun → (apic_base root : ℕ) → Ept → Run Bool
build array runs apic_base root = do
  mapped ← construct_runs root runs
  elim mapped [
    | false ↦ abandon root
    | true ↦ (do
      entry ← construct_tables false 4 root (apic_base * 4096 % 2 ^ 64)
      elim entry [ none ↦ abandon root | some p ↦ preallocate array root ])
  ]

-- `EptData` after `RtlZeroMemory`, with the root.
unfoldable pub start_data : (root : ℕ) → Ept → Run (Unit {0})
start_data root s =
    ok tt
      (record s { ept_pml4 = root; preallocated_entries = λ j. 0; preallocated_entries_count = 0 })

-- `EptInitialization`: whether it returns data.
unfoldable pub ept_initialization :
    (data_given array : Bool) → List PhysicalMemoryRun → (apic_base : ℕ) → Ept → Run Bool
ept_initialization data_given array runs apic_base =
    if data_given
    then (do
      made ← allocate_from_pool
      elim made [
        | none ↦ pure false
        | some root ↦ (do _ ← start_data root; build array runs apic_base root)
      ])
    else pure false
