-- ===== src/Tests/InitRuns.antt =====
-- `EptInitialization` on sixty pages, with a run of two pages of memory and a table of someone else.
use device_mon.Prelude.{
  ℕ, zero, suc, ◌+◌, ◌≤◌, ◌<◌, ◌^◌, ◌≡◌, refl, true, false, Option, none, some, List, [], ◌∷◌,
  arith, ◌==◌, if◌then◌else◌,
}
use device_mon.Ept.Mtrr.{get_memory_type, scan_entries}
use device_mon.Ept.Entry.{
  table_index, init_table_entry, address_to_pxe_index, address_to_ppe_index, address_to_pde_index,
  address_to_pte_index,
}
use device_mon.Ept.Tables.{
  Ept, zero_table, ok, fault, allocate_from_pool, allocate_ept_entry, construct_tables, next_table,
  add_table, enter_table, set_leaf, read, write,
}
use device_mon.Ept.Tables.Walk.{Memory}
use device_mon.Ept.Tables.Inv.{listed, IsFresh}
use device_mon.Ept.Tables.Init.{
  PhysicalMemoryRun, ept_initialization, build, construct_runs, construct_pages, preallocate,
  fill_preallocated, set_preallocated, start_data,
}
use device_mon.Ept.Tables.Init.Result.{Initialized, ept_initialization-Initialized}
use device_mon.Ept.Tables.Init.Serves.{AllMapped, ept_initialization-AllMapped}
use device_mon.Tests.EptRuns.{small}

abbrev foreign_table : Memory
foreign_table f = if f == 1 then some zero_table else none

abbrev frames : (first count : ℕ) → List (Option ℕ)
frames first zero = []
frames first (suc n) = some first ∷ frames (first + 1) n

listed-frames : (f first n : ℕ) → f < first → listed f (frames first n) ≡ false
listed-frames f first zero below = refl
listed-frames f first (suc n) below =
    let rest = listed-frames f (first + 1) n (omega arith) in ground arith

frames-IsFresh :
    (first n : ℕ) → 1 < first → first + n ≤ 2 ^ 36 → IsFresh foreign_table (frames first n)
frames-IsFresh first zero past inside = tt
frames-IsFresh first (suc n) past inside = (
  ground arith,
  omega arith,
  omega arith,
  listed-frames first (first + 1) n (omega arith),
  frames-IsFresh (first + 1) n (omega arith) (omega arith),
)

abbrev unused : Ept
unused = record small { tables = foreign_table; pool = frames 2 60 }

ept_initialization-Initialized_example : Initialized unused (
    ept_initialization true true
      (record { base_page = 0x1000; page_count = 2 } ∷ [])
      0xFEE00
      unused)
ept_initialization-Initialized_example =
    ept_initialization-Initialized true true (record { base_page = 0x1000; page_count = 2 } ∷ [])
      0xFEE00 unused (frames-IsFresh 2 60 (omega arith) (omega arith))

abbrev two_pages : List PhysicalMemoryRun
two_pages = record { base_page = 0x1000; page_count = 2 } ∷ []

abbrev mapped_state : Ept
mapped_state = elim (ept_initialization true true two_pages 0xFEE00 unused) [
  | ok done s ↦ s
  | fault ↦ unused
]

two_pages-mapped : ept_initialization true true two_pages 0xFEE00 unused ≡ ok true mapped_state
unfolding ept_initialization build construct_runs construct_pages construct_tables preallocate
    fill_preallocated set_preallocated start_data allocate_from_pool allocate_ept_entry next_table
    add_table enter_table set_leaf address_to_pxe_index address_to_ppe_index address_to_pde_index
    address_to_pte_index table_index init_table_entry read write get_memory_type scan_entries
two_pages-mapped = refl

ept_initialization-AllMapped_example : AllMapped two_pages 0xFEE00 mapped_state
ept_initialization-AllMapped_example =
    ept_initialization-AllMapped true true two_pages 0xFEE00 unused mapped_state
      (frames-IsFresh 2 60 (omega arith) (omega arith)) two_pages-mapped
