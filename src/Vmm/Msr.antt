-- ===== src/Vmm/Msr.antt =====
-- `VmmpHandleMsrAccess` of DeviceMon/vmm.cpp: RDMSR and WRMSR. The 64-bit and the natural-width
-- accesses to the VMCS are the same on x64.
pub mod Access
use device_mon.Prelude.{
  ℕ, ◌%◌, ◌^◌, Bool, true, false, Option, none, some, ◌==◌, if◌then◌else◌, update, low_part,
  high_part, join_parts,
}
use device_mon.Cpu.Registers.{GpRegisters}
use device_mon.Vmm.State.{Vcpu, vm_read, vm_write, with_regs}
use device_mon.Vmm.Inject.{adjust_guest_instruction_pointer}

-- The switch: the field of the VMCS that stands for the MSR, if there is one.
unfoldable pub transfer_to_vmcs : ℕ → Option ℕ
transfer_to_vmcs msr =
    if msr == 0x174
    then some 0x482a
    else (if msr == 0x175
        then some 0x6824
        else (if msr == 0x176
            then some 0x6826
            else (if msr == 0x1D9
                then some 0x2802
                else (if msr == 0xC0000101
                    then some 0x6810
                    else (if msr == 0xC0000100 then some 0x680e else none)))))

-- `msr` is the low half of RCX.
abbrev pub msr_number : Vcpu → ℕ
msr_number v = v.gp_regs.cx % 2 ^ 32

unfoldable pub read_msr : ℕ → Vcpu → ℕ
read_msr msr v = elim (transfer_to_vmcs msr) [ none ↦ v.msrs msr | some f ↦ vm_read f v ]

-- VMWRITE drops the upper half for 0x482a, which is 32 bits wide.
unfoldable pub write_msr : ℕ → ℕ → Vcpu → Vcpu
write_msr msr x v = elim (transfer_to_vmcs msr) [
  | none ↦ record v { msrs = update v.msrs msr x }
  | some f ↦ vm_write f (if f == 0x482a then x % 2 ^ 32 else x) v
]

unfoldable pub handle_msr_access : Bool → Vcpu → Vcpu
handle_msr_access true v =
    let value = read_msr (msr_number v) v in
    adjust_guest_instruction_pointer
      (with_regs (record v.gp_regs { ax = low_part value; dx = high_part value }) v)
handle_msr_access false v =
    adjust_guest_instruction_pointer
      (write_msr (msr_number v) (join_parts v.gp_regs.dx v.gp_regs.ax) v)
