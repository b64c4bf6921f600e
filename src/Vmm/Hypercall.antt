-- ===== src/Vmm/Hypercall.antt =====
-- `VmmpHandleVmCall` and `VmmpHandleVmCallTermination` of DeviceMon/vmm.cpp. Switching the monitor
-- on and off acts on the page tables, which are the second state of the run.
pub mod Termination
use device_mon.Prelude.{
  Option, none, some, ℕ, ◌+◌, ◌*◌, ◌/◌, ◌%◌, ◌^◌, Bool, true, false, ◌&&◌, not, List, ◌==◌, leb,
  if◌then◌else◌, update,
}
use device_mon.Cpu.Registers.{GpRegisters}
use device_mon.Ept.Tables.{Ept, Run, ok, fault, ◌>>=◌, pure}
use device_mon.Devices.Pci.{PciBus}
use device_mon.Devices.Config.{PciMonitorCfg}
use device_mon.Devices.Bars.{enable_device_monitor, disable_device_monitor}
use device_mon.Vmm.State.{Vcpu, vm_read, vm_write, with_regs}
use device_mon.Vmm.Inject.{
  clear_status, indicate_successful_vmcall, indicate_unsuccessful_vmcall, get_guest_cpl,
}

-- `VmmpHandleVmCallTermination`. The descriptor table registers are loaded from the VMCS, and the
-- address of the processor's data is stored where the caller asks; neither is read by the VMM again.
unfoldable pub handle_vmcall_termination : Vcpu → Vcpu
handle_vmcall_termination v =
    let return_address = (v.ip + vm_read 0x440c v) % 2 ^ 64 in
    let flags = clear_status v.flag_reg in
    record v {
      flag_reg = flags;
      gp_regs = record v.gp_regs { cx = return_address; dx = v.gp_regs.sp; ax = flags };
      vm_continue = false;
    }

-- The hypercall's number, the low half of RCX.
abbrev pub hypercall_number : Vcpu → ℕ
hypercall_number v = v.gp_regs.cx % 2 ^ 32

-- Whatever is known of the devices and of the bus.
abbrev pub Found : Type 0 → Type 0
Found S = List PciMonitorCfg × S

-- The cases of the switch. `kGetSharedProcessorData` stores a pointer at the address that the caller
-- gives in RDX, unchecked: `store` is what the store does, and `none` a fault of the VMM.
unfoldable pub dispatch_vmcall :
    {S : Type 0}
    → PciBus S
    → (store : ℕ → S → Option S) → ℕ
    → Vcpu
    → Found S
    → Ept
    → Run (Vcpu × Found S)
dispatch_vmcall bus store number v found =
    if number == 0
    then (if get_guest_cpl v == 0
        then pure (handle_vmcall_termination v, found)
        else pure (indicate_unsuccessful_vmcall v, found))
    else (if number == 1
        then pure (indicate_successful_vmcall v, found)
        else (if number == 2
            then elim (store v.gp_regs.dx found.1) [
              | none ↦ (λ ept. fault)
              | some s ↦ pure (indicate_successful_vmcall v, (found.0, s))
            ]
            else (if number == 3
                then (do
                  found' ← enable_device_monitor bus found.0 found.1
                  pure (indicate_successful_vmcall v, found'))
                else (if number == 4
                    then (do
                      found' ← disable_device_monitor bus found.0 found.1
                      pure (indicate_successful_vmcall v, found'))
                    else pure (v, found)))))

-- `VmmpHandleVmCall`: after an unsupported number the switch is entered all the same.
unfoldable pub handle_vmcall :
    {S : Type 0}
    → PciBus S
    → (store : ℕ → S → Option S) → Vcpu
    → Found S
    → Ept
    → Run (Vcpu × Found S)
unfolding dispatch_vmcall
handle_vmcall bus store v found =
    let number = hypercall_number v in
    if not (leb number 4)
    then dispatch_vmcall bus store number (indicate_unsuccessful_vmcall v) found
    else dispatch_vmcall bus store number v found
