-- ===== src/Vmm/Inject/Frames.antt =====
-- What `VmmpAdjustGuestInstructionPointer` (DeviceMon/vmm.cpp) does to the fields of the VMCS.
use device_mon.Prelude.{ℕ, ◌≡◌, ◌≢◌, arith}
use device_mon.Vmm.State.{Vcpu, vm_read}
use device_mon.Vmm.Inject.{inject_interruption, inject_db, adjust_guest_instruction_pointer}

pub adjust-gp_regs : (v : Vcpu) → (adjust_guest_instruction_pointer v).gp_regs ≡ v.gp_regs
unfolding adjust_guest_instruction_pointer inject_db inject_interruption
adjust-gp_regs v = ground arith

pub adjust-msrs : (v : Vcpu) → (adjust_guest_instruction_pointer v).msrs ≡ v.msrs
unfolding adjust_guest_instruction_pointer inject_db inject_interruption
adjust-msrs v = ground arith

pub adjust-drs : (v : Vcpu) → (adjust_guest_instruction_pointer v).drs ≡ v.drs
unfolding adjust_guest_instruction_pointer inject_db inject_interruption
adjust-drs v = ground arith

pub adjust-vm_continue :
    (v : Vcpu) → (adjust_guest_instruction_pointer v).vm_continue ≡ v.vm_continue
unfolding adjust_guest_instruction_pointer inject_db inject_interruption
adjust-vm_continue v = ground arith

pub adjust-last_fault_entry :
    (v : Vcpu) → (adjust_guest_instruction_pointer v).last_fault_entry ≡ v.last_fault_entry
unfolding adjust_guest_instruction_pointer inject_db inject_interruption
adjust-last_fault_entry v = ground arith

-- 0x681a is `kGuestDr7`.
pub adjust-dr7 : (v : Vcpu) → vm_read 0x681a (adjust_guest_instruction_pointer v) ≡ vm_read 0x681a v
unfolding adjust_guest_instruction_pointer inject_db inject_interruption
adjust-dr7 v = ground arith

-- The fields of the VMCS that are written: `kGuestRip` and the two of the event.
pub adjust-vmcs :
    (f : ℕ)
    → f ≢ 0x681e
    → f ≢ 0x401a
    → f ≢ 0x4016
    → (v : Vcpu) → vm_read f (adjust_guest_instruction_pointer v) ≡ vm_read f v
unfolding adjust_guest_instruction_pointer inject_db inject_interruption
adjust-vmcs f a b c v = ground arith
