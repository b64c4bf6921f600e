-- ===== src/Vmm/Exits.antt =====
-- Exits that are answered at once (DeviceMon/vmm.cpp): `VmmpHandleException`, `VmmpHandleCpuid`,
-- `VmmpHandleRdtsc`, `VmmpHandleRdtscp`, `VmmpHandleXsetbv` and `VmmpHandleVmx`.
pub mod Advance
pub mod Reinject
use device_mon.Prelude.{
  ℕ, ◌+◌, ◌*◌, ◌/◌, ◌%◌, ◌^◌, Bool, true, false, Option, none, some, ◌==◌, if◌then◌else◌, field,
  set_field, low_part, high_part, join_parts,
}
use device_mon.Vmm.State.{Vcpu, vm_read, vm_write, with_regs}
use device_mon.Vmm.Inject.{
  inject_interruption, adjust_guest_instruction_pointer, clear_status, with_flags,
}

-- What CPUID leaves in the four registers, each of 32 bits.
pub record CpuInfo : Type 0 where
  pub eax : ℕ
  pub ebx : ℕ
  pub ecx : ℕ
  pub edx : ℕ

-- The hypervisor's bit of the function 1, and the signature for the function 0x40000001.
unfoldable pub present_cpuid : ℕ → CpuInfo → CpuInfo
present_cpuid function_id info =
    if function_id == 1
    then record info { ecx = set_field 31 1 1 info.ecx }
    else (if function_id == 0x40000001 then record info { eax = 0x50707948 } else info)

-- `cpuid` is the processor's instruction, by the function and the sub-function.
unfoldable pub handle_cpuid : (ℕ → ℕ → CpuInfo) → Vcpu → Vcpu
handle_cpuid cpuid v =
    let function_id = v.gp_regs.ax % 2 ^ 32 in
    let info = present_cpuid function_id (cpuid function_id (v.gp_regs.cx % 2 ^ 32)) in
    adjust_guest_instruction_pointer (
      with_regs (record v.gp_regs { ax = info.eax; bx = info.ebx; cx = info.ecx; dx = info.edx }) v)

unfoldable pub handle_rdtsc : ℕ → Vcpu → Vcpu
handle_rdtsc tsc v =
    adjust_guest_instruction_pointer
      (with_regs (record v.gp_regs { dx = high_part tsc; ax = low_part tsc }) v)

unfoldable pub handle_rdtscp : ℕ → ℕ → Vcpu → Vcpu
handle_rdtscp tsc tsc_aux v =
    adjust_guest_instruction_pointer
      (with_regs (record v.gp_regs { dx = high_part tsc; ax = low_part tsc; cx = tsc_aux }) v)

-- The register and the value of the XSETBV that the VMM executes, and the state.
unfoldable pub handle_xsetbv : Vcpu → (ℕ × ℕ) × Vcpu
handle_xsetbv v = (
  (v.gp_regs.cx % 2 ^ 32, join_parts v.gp_regs.dx v.gp_regs.ax),
  adjust_guest_instruction_pointer v,
)

-- The instruction fails without a status: CF is set, the other flags are cleared.
unfoldable pub handle_vmx : Vcpu → Vcpu
handle_vmx v =
    adjust_guest_instruction_pointer (with_flags (set_field 0 1 1 (clear_status v.flag_reg)) v)

-- What an exception ends in: the guest goes on, with the value that is written to CR2 if one is, or
-- the system stops.
pub data Outcome : Type 0 where
  continues : Option ℕ → Vcpu → Outcome
  bug_check : Outcome

-- 0x4404 is `kVmExitIntrInfo`, 0x4406 `kVmExitIntrErrorCode`, 0x6400 `kExitQualification`, 0x440c
-- `kVmExitInstructionLen` and 0x401a `kVmEntryInstructionLen`.
unfoldable pub handle_exception : Vcpu → Outcome
handle_exception v =
    let vector = field 0 8 (vm_read 0x4404 v) in
    let type = field 8 3 (vm_read 0x4404 v) in
    let code = vm_read 0x4406 v % 2 ^ 32 in
    if type == 3
    then (if vector == 14
        then continues (some (vm_read 0x6400 v)) (inject_interruption type vector true code v)
        else (if vector == 13
            then continues none (inject_interruption type vector true code v)
            else bug_check))
    else (if type == 6
        then (if vector == 3
            then continues none
                (vm_write 0x401a (vm_read 0x440c v) (inject_interruption type vector false 0 v))
            else bug_check)
        else bug_check)
