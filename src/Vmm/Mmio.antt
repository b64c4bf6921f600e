-- ===== src/Vmm/Mmio.antt =====
-- `VmmpHandleMmio`, `VmmpHandleEptViolation` and `VmmpHandleMonitorTrap` of DeviceMon/vmm.cpp,
-- `EptHandleEptViolation` of DeviceMon/ept.cpp and `DmSetMonitorTrapFlag` of DeviceMon/DevMon.cpp:
-- an access to a monitored page is made in one step of the guest, with the page open.
pub mod Step
pub mod Supply
use device_mon.Prelude.{
  ℕ, ◌+◌, ◌*◌, ◌/◌, ◌%◌, ◌^◌, Bool, true, false, ◌&&◌, ◌||◌, not, Option, none, some, List, ◌==◌,
  if◌then◌else◌, update, field, set_field,
}
use device_mon.Ept.Tables.{
  Pointer, Ept, Run, ok, fault, ◌>>=◌, pure, ept_get_ept_pt_entry, map_gpa_to_hpa,
}
use device_mon.Monitor.Pages.{is_present, set_access}
use device_mon.Fuzzer.Disassemble.{Disassembler}
use device_mon.Devices.Config.{PciMonitorCfg}
use device_mon.Devices.Callbacks.{Access, is_monitored_device, execute_callback}
use device_mon.Vmm.State.{Vcpu, vm_read, vm_write}
use device_mon.Vmm.Inject.{adjust_guest_instruction_pointer}

-- What the handlers ask the rest of the system: the list of devices, `UtilPfnFromVa`, the
-- disassembler at an instruction pointer, and the interrupt request level.
pub record Environment : Type 0 where
  pub devices : List PciMonitorCfg
  pub pfn : ℕ → ℕ
  pub disassemble : ℕ → Disassembler
  pub irql : ℕ

-- `DmSetMonitorTrapFlag`: bit 27 of `kCpuBasedVmExecControl`, 0x4002.
unfoldable pub set_monitor_trap_flag : ℕ → Vcpu → Vcpu
set_monitor_trap_flag enable v = vm_write 0x4002 (set_field 27 1 enable (vm_read 0x4002 v)) v

-- 0x681e is `kGuestRip`, 0x2400 `kGuestPhysicalAddress`, 0x440c `kVmExitInstructionLen`; of
-- `kExitQualification`, 0x6400, bit 0 is a read and bit 1 a write.
unfoldable pub mmio_access : Environment → Vcpu → Access
mmio_access env v = record {
  pfn = env.pfn;
  disassembler = env.disassemble (vm_read 0x681e v);
  irql = env.irql;
  inst_pointer = vm_read 0x681e v;
  mmio_address = vm_read 0x2400 v;
  inst_len = vm_read 0x440c v % 2 ^ 32;
  access =
      if field 0 1 (vm_read 0x6400 v) == 1
      then 1
      else (if field 1 1 (vm_read 0x6400 v) == 1 then 2 else 0);
}

abbrev pub with_entry : Option Pointer → Vcpu → Vcpu
with_entry p v = record v { last_fault_entry = p }

-- Where the instruction is not skipped: the page is opened, and the guest will exit after it.
unfoldable pub open_page : Option Pointer → Vcpu → Ept → Run Vcpu
open_page entry v = do
  _ ← set_access 1 1 1 entry
  pure (set_monitor_trap_flag 1 (with_entry entry v))

-- From the call of `DmExecuteCallback` on.
unfoldable pub run_callback : Environment → Option Pointer → Vcpu → Ept → Run (Bool × Vcpu)
run_callback env entry v =
    let (skip, client) = execute_callback env.devices (mmio_access env v) (v.gp_regs, v.records) in
    let v' = record v { gp_regs = client.0; records = client.1 } in
    if not skip
    then (do opened ← open_page entry v'; pure (true, opened))
    else pure (true, adjust_guest_instruction_pointer v')

-- `VmmpHandleMmio`; the argument of `DmIsMonitoredDevice` is cut to 32 bits.
unfoldable pub handle_mmio : Environment → Vcpu → Ept → Run (Bool × Vcpu)
handle_mmio env v =
    if not (is_monitored_device env.devices (vm_read 0x2400 v % 2 ^ 32))
    then pure (false, v)
    else (do
      entry ← ept_get_ept_pt_entry (vm_read 0x2400 v)
      present ← is_present entry
      if present then run_callback env entry v else pure (false, v))

-- From the lookup of `EptHandleEptViolation` on: an address that is not mapped is mapped.
-- The assertion on `EptpIsDeviceMemory` does nothing in a release build.
unfoldable pub map_missing : ℕ → Ept → Run Bool
map_missing pa = do
  entry ← ept_get_ept_pt_entry pa
  present ← is_present entry
  if present then pure false else (do _ ← map_gpa_to_hpa pa; pure true)

-- `EptHandleEptViolation`: bits 3, 4 and 5 of the qualification say that the page is readable,
-- writable or executable.
unfoldable pub handle_ept_violation : Vcpu → Ept → Run Bool
handle_ept_violation v =
    if field 3 1 (vm_read 0x6400 v) == 1
      || field 4 1 (vm_read 0x6400 v) == 1
      || field 5 1 (vm_read 0x6400 v) == 1
    then pure false
    else map_missing (vm_read 0x2400 v)

-- What follows `VmmpHandleMmio` in `VmmpHandleEptViolation`.
unfoldable pub after_mmio : Bool × Vcpu → Ept → Run Vcpu
after_mmio (true, v) = pure v
after_mmio (false, v) = do _ ← handle_ept_violation v; pure v

-- `VmmpHandleEptViolation`.
unfoldable pub vmm_handle_ept_violation : Environment → Vcpu → Ept → Run Vcpu
vmm_handle_ept_violation env v = do handled ← handle_mmio env v; after_mmio handled

-- `VmmpHandleMonitorTrap`; the pointer is not null.
unfoldable pub handle_monitor_trap : Vcpu → Ept → Run Vcpu
handle_monitor_trap v = do
  _ ← set_access 0 0 1 v.last_fault_entry
  pure (set_monitor_trap_flag 0 (with_entry none v))
