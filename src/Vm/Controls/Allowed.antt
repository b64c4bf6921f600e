-- ===== src/Vm/Controls/Allowed.antt =====
-- The bits of the value of `VmpAdjustControlValue` (DeviceMon/vm.cpp).
use device_mon.Prelude.{
  ℕ, ◌%◌, ◌^◌, ◌<◌, ◌≡◌, refl, ◌∙◌, arith, ◌==◌, if◌then◌else◌, low_part, high_part, bit, bits_and,
  bit-bits_and, bit-bits_or, bits_or-lt, bit-lt,
}
use device_mon.Vm.Controls.{adjust_control_value}

-- In the capability MSR a zero of the high half forbids a bit, and a one of the low half wants it.
pub record IsAllowed (msr requested adjusted : ℕ) : Type 0 where
  pub ones : (i : ℕ) → i < 32 → bit i (low_part msr) ≡ 1 → bit i adjusted ≡ 1
  pub zeros :
      (i : ℕ) → i < 32 → bit i (low_part msr) ≡ 0 → bit i (high_part msr) ≡ 0 → bit i adjusted ≡ 0
  pub flexible :
      (i : ℕ)
      → i < 32
      → bit i (low_part msr) ≡ 0
      → bit i (high_part msr) ≡ 1
      → bit i adjusted ≡ bit i (requested % 2 ^ 32)
  pub small : adjusted < 2 ^ 32

adjust-bit :
    (msr requested i : ℕ)
    → i < 32
    → bit i (adjust_control_value msr requested) ≡ (
        if (if bit i (requested % 2 ^ 32) == 1 then bit i (high_part msr) else 0) == 1
        then 1
        else bit i (low_part msr))
unfolding adjust_control_value
adjust-bit msr requested i below =
    bit-bits_or i 32 (bits_and 32 (requested % 2 ^ 32) (high_part msr)) (low_part msr) below
    ∙ rw (bit-bits_and i 32 (requested % 2 ^ 32) (high_part msr) below) refl

-- The value has 32 bits. Each bit is one where the low half of the capability MSR has a one, zero
-- where both halves have a zero, and as requested where the low half has a zero and the high half
-- a one.
pub adjust_control_value-IsAllowed :
    (msr requested : ℕ) → IsAllowed msr requested (adjust_control_value msr requested)
unfolding adjust_control_value
adjust_control_value-IsAllowed msr requested = record {
  ones = λ i below one. ground (arith, adjust-bit msr requested i below);
  zeros = λ i below loose shut. ground (arith, adjust-bit msr requested i below);
  flexible = λ i below loose free.
      ground (arith, adjust-bit msr requested i below, bit-lt i (requested % 2 ^ 32));
  small = bits_or-lt 32 _ _;
}
