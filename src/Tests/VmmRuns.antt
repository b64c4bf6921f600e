-- ===== src/Tests/VmmRuns.antt =====
-- A guest at CPL 0, an access to the registers of the management engine, and a page table that maps
-- one page in which they are.
use device_mon.Prelude.{
  ℕ, ◌%◌, ◌^◌, ◌≡◌, refl, ◌≢◌, inl, inr, true, false, Option, none, some, [], arith, ◌==◌,
  if◌then◌else◌, low_part,
}
use device_mon.Cpu.Registers.{Gpr, load}
use device_mon.Ept.Entry.{EptCommonEntry, zero_entry}
use device_mon.Ept.Tables.{Table, Ept}
use device_mon.Ept.Tables.Walk.{translation}
use device_mon.Ept.Tables.Inv.{Shape, Inv}
use device_mon.Devices.Callbacks.{is_monitored_device}
use device_mon.Vmm.State.{Vcpu, vm_read}
use device_mon.Vmm.Inject.{get_guest_cpl}
use device_mon.Vmm.Exits.{CpuInfo, handle_exception}
use device_mon.Vmm.Exits.Reinject.{Answered, handle_exception-Answered}
use device_mon.Vmm.Msr.{msr_number, transfer_to_vmcs, handle_msr_access}
use device_mon.Vmm.Msr.Access.{handle_msr_access-read-write}
use device_mon.Vmm.Debug.{access_dr, handle_dr_access}
use device_mon.Vmm.Debug.Access.{
  Faulted, IsPlain, kept_value, handle_dr_access-Faulted, access_dr-access_dr,
}
use device_mon.Vmm.Mmio.{Environment, vmm_handle_ept_violation, handle_mmio}
use device_mon.Vmm.Mmio.Supply.{Supplied, vmm_handle_ept_violation-Supplied}
use device_mon.Vmm.Mmio.Step.{Stepped, handle_mmio-Stepped}
use device_mon.Tests.EptRuns.{small, root_shape, small-Inv}
use device_mon.Tests.FuzzerRuns.{one_taken, pfn, moves_eax, zeros}
use device_mon.Tests.DeviceRuns.{found_list}

-- A write of 7 to the MSR 0x174, which a field of the VMCS stands for. RCX is also the number of a
-- hypercall that does not exist.
abbrev pub guest : Vcpu
guest = record {
  gp_regs = record zeros { cx = 0x174; ax = 7; dx = 1 };
  flag_reg = 0x202;
  ip = 0x3014;
  cr8 = 0;
  vm_continue = true;
  vmcs = λ f. if f == 0x2400 then 0xF7E10020 else (if f == 0x440c then 2 else 0);
  msrs = λ m. 0;
  drs = λ k. 0;
  last_fault_entry = none;
  records = one_taken;
}

guest_field : transfer_to_vmcs (msr_number guest) ≡ some 0x482a
unfolding transfer_to_vmcs
guest_field = refl

handle_msr_access-read-write_example :
    let v' = handle_msr_access false guest in
    let g = (handle_msr_access true v').gp_regs in
    (g.ax ≡ low_part 7) × (g.dx ≡ 0) × (v'.msrs ≡ guest.msrs)
handle_msr_access-read-write_example = handle_msr_access-read-write guest 0x482a guest_field

-- The same guest in user mode.
abbrev user : Vcpu
user = record guest { vmcs = λ f. if f == 0x4818 then 0x60 else guest.vmcs f }

user_mode : get_guest_cpl user ≢ 0
unfolding get_guest_cpl
user_mode = omega arith

handle_dr_access-Faulted_example : Faulted user (handle_dr_access user)
handle_dr_access-Faulted_example = handle_dr_access-Faulted user (inl user_mode)

plain : IsPlain 6 (load Gpr.ax guest.gp_regs)
unfolding load
plain = inr (refl, omega arith)

access_dr-access_dr_example :
    load Gpr.bx (access_dr 6 Gpr.bx 1 (access_dr 6 Gpr.ax 0 guest)).gp_regs
    ≡ kept_value 6 (load Gpr.ax guest.gp_regs)
access_dr-access_dr_example =
    access_dr-access_dr 6 Gpr.ax Gpr.bx guest plain (omega arith) (λ same. cc)

-- A store that succeeds everywhere.
abbrev put_data : ℕ → ℕ → Option ℕ
put_data address s = some s

abbrev link_to : ℕ → EptCommonEntry
link_to g = record zero_entry { read_access = 1; physial_address = g }

abbrev trapped_page : EptCommonEntry
trapped_page = record zero_entry { execute_access = 1; physial_address = 0xF7E10 }

abbrev table_with : ℕ → EptCommonEntry → Table
table_with slot e i = if i == slot then e else zero_entry

abbrev four_tables : ℕ → Option Table
four_tables f =
    if f == 1
    then some (table_with 0 (link_to 2))
    else (if f == 2
        then some (table_with 3 (link_to 3))
        else (if f == 3
            then some (table_with 447 (link_to 4))
            else (if f == 4 then some (table_with 16 trapped_page) else none)))

abbrev pub mapped : Ept
mapped = record small { tables = four_tables; pool = [] }

abbrev pub mapped_shape : Shape
mapped_shape = record {
  level = λ f.
      if f == 1
      then 4
      else (if f == 2 then 3 else (if f == 3 then 2 else (if f == 4 then 1 else 0)));
  prefix = λ f. if f == 3 then 3 else (if f == 4 then 1983 else 0);
}

pub mapped-Inv : Inv mapped mapped_shape
mapped-Inv = record {
  root = refl;
  whole = refl;
  links = record { present = λ f e. ground arith; below = λ f i t e two inside full. ground arith };
  pool = tt;
  reserve = record {
    spare = λ j above low. absurd (omega arith);
    apart = λ j k above lt low. absurd (omega arith);
  };
}

abbrev pub env : Environment
env = record { devices = found_list; pfn = pfn; disassemble = λ rip. moves_eax; irql = 0 }

monitored : is_monitored_device found_list (vm_read 0x2400 guest % 2 ^ 32) ≡ true
unfolding is_monitored_device
monitored = refl

translated : translation (vm_read 0x2400 guest) mapped ≢ none
unfolding translation
translated = λ e. ground arith

handle_mmio-Stepped_example :
    Stepped guest mapped mapped_shape 0xF7E10020 (handle_mmio env guest mapped)
handle_mmio-Stepped_example =
    handle_mmio-Stepped env guest mapped mapped_shape mapped-Inv monitored translated

abbrev plain_cpuid : ℕ → ℕ → CpuInfo
plain_cpuid function sub = record { eax = 1; ebx = 2; ecx = 3; edx = 4 }

handle_exception-Answered_example : Answered guest (handle_exception guest)
handle_exception-Answered_example = handle_exception-Answered guest

untranslated : translation (vm_read 0x2400 guest) small ≡ none
unfolding translation
untranslated = refl

vmm_handle_ept_violation-Supplied_example :
    Supplied small 0xF7E10020 (vmm_handle_ept_violation env guest small)
vmm_handle_ept_violation-Supplied_example =
    vmm_handle_ept_violation-Supplied small root_shape small-Inv (omega arith) env guest
      untranslated refl
