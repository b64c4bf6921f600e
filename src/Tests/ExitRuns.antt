-- ===== src/Tests/ExitRuns.antt =====
-- The dispatch of the exits, a repeated string instruction, and the release of the page tables.
use device_mon.Prelude.{
  ℕ, zero, suc, ◌+◌, ◌*◌, ◌%◌, ◌^◌, ◌≡◌, refl, true, false, some, List, [], ◌∷◌, ◌++◌, arith, ◌==◌,
  if◌then◌else◌, Bytes,
}
use device_mon.Devices.Config.{monitor_device_list}
use device_mon.Vmm.State.{Vcpu, vm_read, with_regs}
use device_mon.Vmm.Io.{Ports, handle_string}
use device_mon.Vmm.Io.Repeat.{IsUnitwise, units, handle_string-units}
use device_mon.Vmm.Control.{access_cr}
use device_mon.Vmm.Control.Fixed.{IsGuarded, access_cr-IsGuarded}
use device_mon.Cpu.Registers.{Gpr, load}
use device_mon.Vmm.Descriptor.{code_is_64bit, access_table}
use device_mon.Vmm.Descriptor.Reload.{access_table-access_table}
use device_mon.Vmm.Dispatch.{Machine, World, Reason, handle_reason}
use device_mon.Vmm.Dispatch.Progress.{Steps, Progress, handle_reason-Steps, handle_reason-Progress}
use device_mon.Tests.EptRuns.{small}
use device_mon.Tests.DeviceRuns.{one_register}
use device_mon.Tests.VmmRuns.{guest, env}

-- The ports as the list of the transfers: the port and the address of each.
unfoldable transfers : (width port address count : ℕ) → List (ℕ × ℕ) → List (ℕ × ℕ)
transfers width port address zero m = m
transfers width port address (suc n) m =
    transfers width port ((address + width) % 2 ^ 64) n ((port, address) ∷ m)

abbrev traced : Ports (List (ℕ × ℕ))
unfolding transfers
traced = record {
  in_port = λ width port m. (0, m);
  out_port = λ width port value m. m;
  in_string = transfers;
  out_string = transfers;
}

traced-IsUnitwise : IsUnitwise traced
unfolding transfers
traced-IsUnitwise = record {
  in_none = λ width port address m. refl;
  in_more = λ width port address n m. refl;
  out_none = λ width port address m. refl;
  out_more = λ width port address n m. refl;
}

-- Three bytes from the port 0x60.
abbrev reader : Vcpu
reader = record guest { gp_regs = record guest.gp_regs { cx = 3; di = 0x1000 } }

handle_string-units_example : handle_string traced true true 1 0x60 reader [] ≡ (
    let done = units traced true 1 0x60 reader.gp_regs.cx reader.gp_regs [] in
    (with_regs (record done.0 { cx = 0 }) reader, done.1))
handle_string-units_example =
    handle_string-units traced traced-IsUnitwise true 1 0x60 reader [] (omega arith) (omega arith)
      (omega arith)

access_cr-IsGuarded_example :
    IsGuarded 0x6800 0x6004
      (guest.msrs 0x486)
      (guest.msrs 0x487)
      (load Gpr.bx guest.gp_regs)
      (access_cr 1 0 0 Gpr.bx guest)
    × IsGuarded 0x6804 0x6006
        (guest.msrs 0x488)
        (guest.msrs 0x489)
        (load Gpr.bx guest.gp_regs)
        (access_cr 1 0 4 Gpr.bx guest)
access_cr-IsGuarded_example = access_cr-IsGuarded 1 Gpr.bx guest

-- Descriptors of 64-bit code everywhere.
abbrev wide : Bytes
wide a = 0xff

wide-code : code_is_64bit guest wide ≡ true
unfolding code_is_64bit device_mon.Prelude.load_bytes
wide-code = refl

access_table-access_table_example :
    (let stored = access_table 0 0x5000 guest wide in
      let loaded = access_table 2 0x5000 stored.0 stored.1 in
      (vm_read 0x6816 loaded.0 ≡ vm_read 0x6816 guest)
      × (vm_read 0x4810 loaded.0 ≡ vm_read 0x4810 guest % 2 ^ 16)
      × (loaded.1 ≡ stored.1))
    × (let stored = access_table 1 0x5000 guest wide in
        let loaded = access_table 3 0x5000 stored.0 stored.1 in
        (vm_read 0x6818 loaded.0 ≡ vm_read 0x6818 guest)
        × (vm_read 0x4812 loaded.0 ≡ vm_read 0x4812 guest % 2 ^ 16)
        × (loaded.1 ≡ stored.1))
access_table-access_table_example =
    access_table-access_table 0x5000 guest wide wide-code (omega arith) (omega arith)

abbrev machine : Machine ℕ (List (ℕ × ℕ))
machine = record {
  cpuid = λ f sub. record { eax = 0; ebx = 0; ecx = 0; edx = 0 };
  tsc = 5;
  tsc_aux = 0;
  processor = 0;
  bus = one_register;
  store = λ address s. some s;
  ports = traced;
  env = env;
}

abbrev world : World ℕ (List (ℕ × ℕ))
world = record {
  vcpu = guest;
  found = (monitor_device_list, 0xF7E10000);
  port_state = [];
  memory = wide;
}

handle_reason-Steps_example :
    Steps world small (handle_reason machine Reason.io_instruction world small)
handle_reason-Steps_example =
    handle_reason-Steps machine Reason.io_instruction world small refl refl

handle_reason-Progress_example :
    Progress world small (handle_reason machine Reason.cr_access world small)
handle_reason-Progress_example = handle_reason-Progress machine Reason.cr_access world small refl
