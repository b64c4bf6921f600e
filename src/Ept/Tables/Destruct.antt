-- ===== src/Ept/Tables/Destruct.antt =====
-- How the tables are freed: EptTermination, EptpFreeUnusedPreAllocatedEntries and
-- EptpDestructTables (DeviceMon/ept.cpp). The allocations that are no tables, `EptData` and the
-- array of the preallocated tables, are not in the memory of the model.
pub mod Subtree
pub mod Freed
pub mod Spares
pub mod Complete
pub mod Terminate
use device_mon.Prelude.{ℕ, zero, suc, ◌+◌, ◌-◌, true, false, none, some, ◌==◌, update}
use device_mon.Ept.Tables.{Ept, Run, ok, fault, ◌>>=◌, pure, read, preallocated_limit}

-- `ExFreePoolWithTag` of a table: one that is not allocated faults.
unfoldable pub free_table : ℕ → Ept → Run (Unit {0})
free_table f s = elim (s.tables f) [
  | none ↦ fault
  | some t ↦ ok tt (record s { tables = update s.tables f none })
]

-- The body of the loop of `EptpDestructTables`: what the level does with the sub-table, if the
-- entry leads to one.
unfoldable pub free_entry : (ℕ → Ept → Run (Unit {0})) → (table i : ℕ) → Ept → Run (Unit {0})
free_entry free table i = do
  entry ← read (table, i)
  elim (entry.physial_address == 0) [ true ↦ pure tt | false ↦ free entry.physial_address ]

-- The loop from index `i` on, with `left` turns.
unfoldable pub free_entries : (ℕ → Ept → Run (Unit {0})) → (table i left : ℕ) → Ept → Run (Unit {0})
free_entries free table i zero = pure tt
free_entries free table i (suc left) = do
  _ ← free_entry free table i
  free_entries free table (i + 1) left

-- `EptpDestructTables` with the case of its switch.
unfoldable pub destruct_with : (ℕ → Ept → Run (Unit {0})) → ℕ → Ept → Run (Unit {0})
destruct_with free table = do _ ← free_entries free table 0 512; free_table table

-- The default of the switch: a breakpoint for the debugger, and on.
abbrev pub debug_break : ℕ → Ept → Run (Unit {0})
debug_break sub_table = pure tt

-- `EptpDestructTables` for each level.
unfoldable pub destruct_tables : (table_level table : ℕ) → Ept → Run (Unit {0})
destruct_tables zero = destruct_with debug_break
destruct_tables (suc zero) = destruct_with debug_break
destruct_tables (suc (suc zero)) = destruct_with free_table
destruct_tables (suc (suc (suc zero))) = destruct_with (destruct_tables (suc (suc zero)))
destruct_tables (suc (suc (suc (suc zero)))) =
    destruct_with (destruct_tables (suc (suc (suc zero))))
destruct_tables (suc (suc (suc (suc (suc level))))) = destruct_with debug_break

-- The loop of `EptpFreeUnusedPreAllocatedEntries` from index `i` on, with `left` turns.
unfoldable pub free_preallocated : (i left : ℕ) → Ept → Run (Unit {0})
free_preallocated i zero s = ok tt s
free_preallocated i (suc left) s = elim (s.preallocated_entries i == 0) [
  | true ↦ ok tt s
  | false ↦ (do _ ← free_table (s.preallocated_entries i); free_preallocated (i + 1) left) s
]

-- `EptpFreeUnusedPreAllocatedEntries`.
unfoldable pub free_unused_preallocated_entries : (used_count : ℕ) → Ept → Run (Unit {0})
free_unused_preallocated_entries used_count =
    free_preallocated used_count (preallocated_limit - used_count)

-- `EptTermination`.
unfoldable pub ept_termination : Ept → Run (Unit {0})
ept_termination s =
    (do
      _ ← free_unused_preallocated_entries s.preallocated_entries_count
      destruct_tables 4 s.ept_pml4)
      s
