-- ===== src/Tests/EptRuns.antt =====
-- A page table that has only its root, the table of the frame 1, three further pages in the pool
-- and no preallocated tables left.
use device_mon.Prelude.{
  ℕ, ◌≡◌, refl, true, false, Option, none, some, [], ◌∷◌, arith, ◌==◌, if◌then◌else◌,
}
use device_mon.Ept.Mtrr.{MtrrData}
use device_mon.Ept.Mtrr.Order.{Covers}
use device_mon.Ept.Tables.{
  Table, Pointer, Ept, Run, zero_table, construct_tables, ept_get_ept_pt_entry,
}
use device_mon.Ept.Tables.Walk.{translation, deref}
use device_mon.Ept.Tables.Inv.{Shape, Inv}
use device_mon.Ept.Tables.Lookup.{Mapped, construct_tables-Mapped, ept_get_ept_pt_entry-translation}
use device_mon.Monitor.Pages.{span_pages, invalidate_ept_pages}
use device_mon.Monitor.Pages.Sweep.{Invalidated, invalidate_ept_pages-Invalidated}

abbrev only_root : ℕ → Option Table
only_root f = if f == 1 then some zero_table else none

abbrev pub root_shape : Shape
root_shape = record { level = λ f. if f == 1 then 4 else 0; prefix = λ f. 0 }

abbrev uncached : MtrrData
uncached = record {
  enabled = true;
  fixed_mtrr = false;
  type = 0;
  range_base = 0xF0000000;
  range_end = 0xFFFFFFFF;
}

abbrev cached : MtrrData
cached = record {
  enabled = true;
  fixed_mtrr = false;
  type = 6;
  range_base = 0;
  range_end = 0xFFFFFFFF;
}

abbrev through : MtrrData
through = record {
  enabled = true;
  fixed_mtrr = false;
  type = 4;
  range_base = 0xE0000000;
  range_end = 0xFFFFFFFF;
}

abbrev pub small : Ept
small = record {
  tables = only_root;
  pool = some 2 ∷ some 3 ∷ some 4 ∷ [];
  ept_pml4 = 1;
  preallocated_entries = λ j. 0;
  preallocated_entries_count = 50;
  mtrrs = record { entries = uncached ∷ []; default_type = 6 };
}

pub small-Inv : Inv small root_shape
small-Inv = record {
  root = refl;
  whole = refl;
  links = record { present = λ f e. ground arith; below = λ f i t e two inside full. ground arith };
  pool = (
    refl,
    omega arith,
    omega arith,
    refl,
    (refl, omega arith, omega arith, refl, (refl, omega arith, omega arith, refl, tt)),
  );
  reserve = record {
    spare = λ j above low. absurd (omega arith);
    apart = λ j k above lt low. absurd (omega arith);
  };
}

construct_tables-Mapped_example :
    Mapped small 0xF7E10000 (construct_tables true 4 1 0xF7E10000 small)
construct_tables-Mapped_example =
    construct_tables-Mapped true small root_shape 0xF7E10000 small-Inv (omega arith)

ept_get_ept_pt_entry-translation_example :
    (r : Option Pointer) × (ept_get_ept_pt_entry 0xF7E10000 small ≡ Run.ok r small)
    × (deref only_root r ≡ translation 0xF7E10000 small)
ept_get_ept_pt_entry-translation_example =
    ept_get_ept_pt_entry-translation small root_shape 0xF7E10000 small-Inv

invalidate_ept_pages-Invalidated_example :
    Invalidated 0xF7E10000
      (span_pages 0x10000)
      small
      (invalidate_ept_pages 0xF7E10000 0x10000 small)
invalidate_ept_pages-Invalidated_example =
    invalidate_ept_pages-Invalidated 0xF7E10000 0x10000 small root_shape refl (omega arith)
      (omega arith) small-Inv (omega arith)

Covers-uncached : Covers 0xF7E10000 uncached
Covers-uncached = record { on = refl; variable = refl; inside = refl }
