-- ===== src/Tests/VmRuns.antt =====
-- Two processors that are virtualized, the bitmaps and controls, the VMCS, and the page table entries.
use device_mon.Prelude.{
  ℕ, ◌≡◌, refl, Bool, true, false, none, some, [], ◌∷◌, arith, ◌&&◌, ◌||◌, not, ltb, leb, ◌==◌,
}
use device_mon.Util.PageTables.{
  PageBases, initialize_page_table_variables, is_canonical_form_address,
}
use device_mon.Util.PageTables.SelfMap.{
  IsSelfMap, IsSelfMapped, initialize_page_table_variables-IsSelfMapped,
  is_canonical_form_address-true,
}
use device_mon.Vm.Lifecycle.{System, Vmx, vm_initialization}
use device_mon.Vm.Lifecycle.Count.{Holds}
use device_mon.Vm.Lifecycle.Shared.{Empty}
use device_mon.Vm.Lifecycle.Whole.{Initialized, vm_initialization-Initialized}
use device_mon.Vm.Bitmaps.{build_msr_bitmap}
use device_mon.Vm.Bitmaps.Exits.{exits, is_read_exit, build_msr_bitmap-exits}
use device_mon.Vm.Controls.{adjust_control_value}
use device_mon.Vm.Controls.Allowed.{IsAllowed, adjust_control_value-IsAllowed}
use device_mon.Vm.Setup.{Host, Made, Write}

-- The index 0x1f0, and a build of Windows 10 whose page tables are relocated.
relocated : IsSelfMap 0x1f0 0xfffff80000000000
relocated = (omega arith, omega arith, omega arith)

initialize_page_table_variables-IsSelfMapped_example :
    (bases : PageBases) × (initialize_page_table_variables 10 17134 (some 0xfffff80000000000)
      ≡ some bases)
    × IsSelfMapped bases
initialize_page_table_variables-IsSelfMapped_example =
    initialize_page_table_variables-IsSelfMapped 10 17134 0x1f0 0xfffff80000000000 relocated

-- An address that is not canonical passes the test.
not_canonical : is_canonical_form_address 0x0000900000000000 ≡ true
not_canonical = is_canonical_form_address-true 0x0000900000000000

-- All allocations succeed.
abbrev idle : System
idle = record {
  live = λ b. 0;
  pool =
      true ∷ true ∷ true ∷ true ∷ true ∷ true ∷ true ∷ true ∷ true ∷ true ∷ true ∷ true ∷ true ∷ [];
  reference_count = 0;
  vmms = λ i. none;
}

idle-Empty : Empty idle
idle-Empty = record {
  holds = record {
    shared = record { shared_data = refl; msr_bitmap = refl; io_bitmaps = refl };
    processors = refl;
    epts = refl;
    stacks = refl;
    vmcss = refl;
    vmxons = refl;
  };
  running = record { inside = λ j from below. absurd (omega arith); outside = λ j out. refl };
}

abbrev works : Vmx
works = record {
  enters = λ i. true;
  initializes = λ i. true;
  sets_up = λ i. true;
  launches = λ i. true;
}

vm_initialization-Initialized_example :
    Initialized 2 (vm_initialization works 2 false true true idle)
vm_initialization-Initialized_example =
    vm_initialization-Initialized works 2 (omega arith) true false true idle idle-Empty

-- The fourth allocation is that of the first processor's data: if it alone fails, the shared data
-- stays live.
leaks :
    (s : System) × (vm_initialization works 1 false true true
        (record idle { pool = true ∷ true ∷ true ∷ false ∷ [] })
      ≡ some (false, s))
    × Holds 0 1 s.live
unfolding vm_initialization device_mon.Vm.Lifecycle.virtualize
    device_mon.Vm.Lifecycle.initialize_shared_data device_mon.Vm.Lifecycle.initialize_msr_bitmap
    device_mon.Vm.Lifecycle.initialize_io_bitmaps device_mon.Vm.Lifecycle.allocate
    device_mon.Vm.Lifecycle.for_each_processor device_mon.Vm.Lifecycle.vmp_start_vm
    device_mon.Vm.Lifecycle.vmp_stop_vm device_mon.Vm.Lifecycle.stop_all
leaks = (
  _,
  refl,
  record {
    shared = record { shared_data = refl; msr_bitmap = refl; io_bitmaps = refl };
    processors = refl;
    epts = refl;
    stacks = refl;
    vmcss = refl;
    vmxons = refl;
  },
)

abbrev some_fault : ℕ → Bool
some_fault msr = msr == 3

build_msr_bitmap-exits_example :
    (exits (build_msr_bitmap some_fault) false 0x174 ≡ is_read_exit some_fault 0x174)
    × (exits (build_msr_bitmap some_fault) true 0x174
        ≡ not (ltb 0x174 0x2000 || leb 0xc0000000 0x174 && ltb 0x174 0xc0002000))
build_msr_bitmap-exits_example = build_msr_bitmap-exits some_fault 0x174

adjust_control_value-IsAllowed_example :
    IsAllowed 0xfff9fffe0401e172 0x90808000 (adjust_control_value 0xfff9fffe0401e172 0x90808000)
adjust_control_value-IsAllowed_example =
    adjust_control_value-IsAllowed 0xfff9fffe0401e172 0x90808000

abbrev host : Host
host = record {
  processor = 0;
  es = 0x2b;
  cs = 0x10;
  ss = 0x18;
  ds = 0x2b;
  fs = 0x53;
  gs = 0x2b;
  ldtr = 0;
  tr = 0x40;
  gdtr_base = 0xfffff80000001000;
  gdtr_limit = 0x7f;
  idtr_base = 0xfffff80000002000;
  idtr_limit = 0xfff;
  cr0 = 0x80050031;
  cr3 = 0x1aa000;
  cr4 = 0x406f8;
  dr7 = 0x400;
  flags = 0x202;
  segment_limit = λ s. 0xffffffff;
  access_rights = λ s. 0x20fb00;
  msrs = λ m. 0;
  memory = λ a. 0;
}

abbrev made : Made
made = record {
  io_bitmap_a = 0x1000;
  io_bitmap_b = 0x2000;
  msr_bitmap = 0x3000;
  ept_pointer = 0x401e;
  guest_stack_pointer = 0x7000;
  guest_instruction_pointer = 0x8000;
  vmm_stack_pointer = 0x9000;
  vmm_entry_point = 0xa000;
}

abbrev accepted : Write → Bool
accepted w = true
