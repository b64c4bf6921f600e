-- ===== src/Vmm/Control.antt =====
-- `VmmpHandleCrAccess`, `VmmpHandleInvalidateInternalCaches` and `VmmpHandleInvalidateTlbEntry` of
-- DeviceMon/vmm.cpp on x64, where the PDPTEs are not loaded: MOV to and from the control registers,
-- INVD and INVLPG.
pub mod Fixed
pub mod Kept
use device_mon.Prelude.{
  ℕ, ◌+◌, ◌*◌, ◌/◌, ◌%◌, ◌^◌, List, [], ◌∷◌, ◌==◌, if◌then◌else◌, field, set_field, bits_and,
  bits_or,
}
use device_mon.Cpu.Registers.{Gpr, load, store}
use device_mon.Vmm.State.{Vcpu, vm_read, vm_write, with_regs}
use device_mon.Vmm.Inject.{adjust_guest_instruction_pointer}
use device_mon.Vmm.Debug.{select_gpr}

-- What is told to the processor: INVVPID of its three kinds that the code uses, and INVD after the
-- caches are written back.
pub data Invalidation : Type 0 where
  individual_address : (vpid address : ℕ) → Invalidation
  single_context_except_global : (vpid : ℕ) → Invalidation
  all_context : Invalidation
  internal_caches : Invalidation

pub data Outcome : Type 0 where
  continues : List Invalidation → Vcpu → Outcome
  bug_check : Outcome

-- The bits that VMX fixes: `fixed0` has those that are one, `fixed1` lacks those that are zero.
unfoldable pub apply_fixed : (fixed0 fixed1 x : ℕ) → ℕ
apply_fixed fixed0 fixed1 x = bits_or 64 (bits_and 64 x fixed1) fixed0

-- 0x486 to 0x489 are `kIa32VmxCr0Fixed0`, `kIa32VmxCr0Fixed1`, `kIa32VmxCr4Fixed0` and
-- `kIa32VmxCr4Fixed1`; 0x6800 is `kGuestCr0`, 0x6004 `kCr0ReadShadow`, 0x6804 `kGuestCr4`, 0x6006
-- `kCr4ReadShadow`, 0x6802 `kGuestCr3`.
unfoldable pub move_to_cr : (vpid cr x : ℕ) → Vcpu → Outcome
unfolding apply_fixed
move_to_cr vpid cr x v =
    let cr0 = apply_fixed (v.msrs 0x486) (v.msrs 0x487) x in
    let cr4 = apply_fixed (v.msrs 0x488) (v.msrs 0x489) x in
    if cr == 0
    then continues [] (vm_write 0x6004 cr0 (vm_write 0x6800 cr0 v))
    else (if cr == 3
        then continues (single_context_except_global vpid ∷ [])
            (vm_write 0x6802 (set_field 63 1 0 x) v)
        else (if cr == 4
            then continues (all_context ∷ []) (vm_write 0x6006 cr4 (vm_write 0x6804 cr4 v))
            else (if cr == 8 then continues [] (record v { cr8 = x }) else bug_check)))

unfoldable pub move_from_cr : (cr : ℕ) → Gpr → Vcpu → Outcome
move_from_cr cr r v =
    if cr == 3
    then continues [] (with_regs (store r (vm_read 0x6802 v) v.gp_regs) v)
    else (if cr == 8 then continues [] (with_regs (store r v.cr8 v.gp_regs) v) else bug_check)

abbrev pub advanced : Outcome → Outcome
advanced (continues told v) = continues told (adjust_guest_instruction_pointer v)
advanced bug_check = bug_check

-- CLTS and LMSW are left unimplemented: the instruction is skipped.
unfoldable pub access_cr : (vpid access_type cr : ℕ) → Gpr → Vcpu → Outcome
unfolding move_to_cr move_from_cr
access_cr vpid access_type cr r v = advanced (
    if access_type == 0
    then move_to_cr vpid cr (load r v.gp_regs) v
    else (if access_type == 1 then move_from_cr cr r v else continues [] v))

-- 0x6400 is `kExitQualification`; `processor` is the number of the current processor.
unfoldable pub handle_cr_access : (processor : ℕ) → Vcpu → Outcome
unfolding access_cr
handle_cr_access processor v =
    let qualification = vm_read 0x6400 v in
    access_cr ((processor + 1) % 2 ^ 16) (field 4 2 qualification) (field 0 4 qualification)
      (select_gpr (field 8 4 qualification)) v

unfoldable pub handle_invalidate_internal_caches : Vcpu → Outcome
handle_invalidate_internal_caches v =
    continues (internal_caches ∷ []) (adjust_guest_instruction_pointer v)

unfoldable pub handle_invalidate_tlb_entry : (processor : ℕ) → Vcpu → Outcome
handle_invalidate_tlb_entry processor v =
    continues (individual_address ((processor + 1) % 2 ^ 16) (vm_read 0x6400 v) ∷ [])
      (adjust_guest_instruction_pointer v)
