-- ===== src/Vmm/Inject.antt =====
-- Events for the guest and its instruction pointer: `VmmpInjectInterruption`,
-- `VmmpAdjustGuestInstructionPointer`, `VmmpIndicateSuccessfulVmcall`,
-- `VmmpIndicateUnsuccessfulVmcall` and `VmmpGetGuestCpl` of DeviceMon/vmm.cpp.
pub mod Frames
use device_mon.Prelude.{
  ℕ, ◌+◌, ◌*◌, ◌/◌, ◌%◌, ◌^◌, Bool, true, false, ◌==◌, if◌then◌else◌, update, field, set_field,
}
use device_mon.Vmm.State.{Vcpu, vm_read, vm_write}

-- `VmEntryInterruptionInformationField`, with `valid` set.
abbrev pub entry_info : ℕ → ℕ → Bool → ℕ
entry_info interruption_type vector deliver =
    vector % 2 ^ 8 + interruption_type % 2 ^ 3 * 2 ^ 8 + (if deliver then 2 ^ 11 else 0) + 2 ^ 31

-- 0x4016 is `kVmEntryIntrInfoField`, 0x4018 `kVmEntryExceptionErrorCode`.
unfoldable pub inject_interruption : ℕ → ℕ → Bool → ℕ → Vcpu → Vcpu
inject_interruption interruption_type vector deliver error_code v =
    let v₁ = vm_write 0x4016 (entry_info interruption_type vector deliver) v in
    if deliver then vm_write 0x4018 error_code v₁ else v₁

-- The exceptions that the handlers inject: #DB, #UD and #GP(0), of the type of hardware exceptions.
unfoldable pub inject_db : Vcpu → Vcpu
unfolding inject_interruption
inject_db = inject_interruption 3 1 false 0

unfoldable pub inject_ud : Vcpu → Vcpu
unfolding inject_interruption
inject_ud = inject_interruption 3 6 false 0

unfoldable pub inject_gp : Vcpu → Vcpu
unfolding inject_interruption
inject_gp = inject_interruption 3 13 true 0

-- 0x440c is `kVmExitInstructionLen`, 0x681e `kGuestRip`, 0x401a `kVmEntryInstructionLen`; bit 8 of
-- the flags is TF.
unfoldable pub adjust_guest_instruction_pointer : Vcpu → Vcpu
unfolding inject_db inject_interruption
adjust_guest_instruction_pointer v =
    let len = vm_read 0x440c v in
    let v₁ = vm_write 0x681e ((v.ip + len) % 2 ^ 64) v in
    if field 8 1 v.flag_reg == 1 then vm_write 0x401a len (inject_db v₁) else v₁

-- CF, PF, AF, ZF, SF and OF are cleared.
abbrev pub clear_status : ℕ → ℕ
clear_status flags =
    set_field 11 1 0 (
      set_field 7 1 0 (set_field 6 1 0 (set_field 4 1 0 (set_field 2 1 0 (set_field 0 1 0 flags)))))

-- 0x6820 is `kGuestRflags`.
abbrev pub with_flags : ℕ → Vcpu → Vcpu
with_flags flags v = vm_write 0x6820 flags (record v { flag_reg = flags })

unfoldable pub indicate_successful_vmcall : Vcpu → Vcpu
indicate_successful_vmcall v =
    adjust_guest_instruction_pointer (with_flags (clear_status v.flag_reg) v)

unfoldable pub indicate_unsuccessful_vmcall : Vcpu → Vcpu
unfolding inject_ud inject_interruption
indicate_unsuccessful_vmcall v = vm_write 0x401a (vm_read 0x440c v) (inject_ud v)

-- 0x4818 is `kGuestSsArBytes`, whose bits 5 and 6 are the DPL.
unfoldable pub get_guest_cpl : Vcpu → ℕ
get_guest_cpl v = field 5 2 (vm_read 0x4818 v)
