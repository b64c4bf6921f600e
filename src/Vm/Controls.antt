-- ===== src/Vm/Controls.antt =====
-- `VmpIsVmxAvailable`, `VmpSetLockBitCallback` and `VmpAdjustControlValue` of DeviceMon/vm.cpp.
pub mod Allowed
use device_mon.Prelude.{
  ℕ, ◌+◌, ◌*◌, ◌/◌, ◌%◌, ◌^◌, Bool, true, false, ◌==◌, if◌then◌else◌, field, set_field, low_part,
  high_part, bits_and, bits_or,
}

-- `msr_value` is the value of the capability MSR.
unfoldable pub adjust_control_value : (msr_value requested_value : ℕ) → ℕ
adjust_control_value msr_value requested_value =
    bits_or 32 (bits_and 32 (requested_value % 2 ^ 32) (high_part msr_value)) (low_part msr_value)

-- The requested controls: bits 2 and 9 of those of VM entry, 9 of VM exit, 15, 23, 28 and 31 of the
-- primary processor-based ones, and 1, 2, 3, 5, 12 and 20 of the secondary ones.
abbrev pub entry_requested : ℕ
entry_requested = 2 ^ 2 + 2 ^ 9

abbrev pub exit_requested : ℕ
exit_requested = 2 ^ 9

abbrev pub pin_requested : ℕ
pin_requested = 0

abbrev pub proc_requested : ℕ
proc_requested = 2 ^ 15 + 2 ^ 23 + 2 ^ 28 + 2 ^ 31

abbrev pub proc2_requested : ℕ
proc2_requested = 2 ^ 1 + 2 ^ 2 + 2 ^ 3 + 2 ^ 5 + 2 ^ 12 + 2 ^ 20

-- `VmpSetLockBitCallback` on the MSR IA32_FEATURE_CONTROL, whose bit 0 is the lock. `write` is what
-- the MSR holds after a write. The answer is whether it is locked, and what the MSR holds.
unfoldable pub set_lock_bit : (write : ℕ → ℕ) → (feature_control : ℕ) → Bool × ℕ
set_lock_bit write feature_control =
    if field 0 1 feature_control == 1
    then (true, feature_control)
    else (let after = write (set_field 0 1 1 feature_control) in (field 0 1 after == 1, after))

-- `VmpIsVmxAvailable`: `ecx` is that of CPUID 1, bit 5 is VMX; bits 50 to 53 of IA32_VMX_BASIC are
-- the memory type, 6 for write-back; bit 2 of IA32_FEATURE_CONTROL enables VMXON. `locks` is the
-- answer of `UtilForEachProcessor`, `ept` that of `EptIsEptAvailable`. The bit is read before the
-- lock is set.
unfoldable pub is_vmx_available : (ecx vmx_basic feature_control : ℕ) → (locks ept : Bool) → Bool
is_vmx_available ecx vmx_basic feature_control locks ept =
    if field 5 1 ecx == 0
    then false
    else (if field 50 4 vmx_basic == 6
        then (if field 0 1 feature_control == 0
            then (if locks then (if field 2 1 feature_control == 0 then false else ept) else false)
            else (if field 2 1 feature_control == 0 then false else ept))
        else false)
