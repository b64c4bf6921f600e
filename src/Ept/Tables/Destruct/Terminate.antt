-- ===== src/Ept/Tables/Destruct/Terminate.antt =====
-- The memory after `EptTermination` (DeviceMon/ept.cpp).
use device_mon.Prelude.{ℕ, ◌≤◌, ◌<◌, ◌≡◌, ◌≢◌, none}
use device_mon.Ept.Tables.{Ept, Run, ok, preallocated_limit}
use device_mon.Ept.Tables.Walk.{Memory}
use device_mon.Ept.Tables.Inv.{Shape, Links, Inv}
use device_mon.Ept.Tables.Destruct.{free_table, destruct_with, destruct_tables}
use device_mon.Ept.Tables.Destruct.Subtree.{Reaches}
use device_mon.Ept.Tables.Destruct.Freed.{with_tables, Frees, free_table-Frees, destruct_with-Frees}

pub destruct_tables-Frees : (m : Memory) (h : Shape) → Links m h → Frees m h 4 (destruct_tables 4)
unfolding destruct_tables
destruct_tables-Frees m h links =
    destruct_with-Frees m h links 2 (destruct_with (destruct_with free_table)) (
      destruct_with-Frees m h links 1 (destruct_with free_table)
        (destruct_with-Frees m h links 0 free_table (free_table-Frees m h links)))

-- The run ends, the tables that the root leads to and the preallocated tables that are left are
-- freed, and no other table is touched that is not linked.
abbrev pub Released : Ept → Shape → Run (Unit {0}) → Type 0
Released s h run =
    (m' : Memory) × (run ≡ ok tt (with_tables s m'))
    × ((x : ℕ) → Reaches s.tables 4 s.ept_pml4 x → m' x ≡ none)
    × ((j : ℕ)
        → s.preallocated_entries_count ≤ j
        → j < preallocated_limit
        → m' (s.preallocated_entries j) ≡ none)
    × ((x : ℕ)
        → h.level x ≡ 0
        → ((j : ℕ)
            → s.preallocated_entries_count ≤ j
            → j < preallocated_limit
            → s.preallocated_entries j ≢ x)
        → m' x ≡ s.tables x)
