-- ===== src/Vmm/Control/Fixed.antt =====
-- The values that MOV to CR0 and CR4 leaves (`VmmpHandleCrAccess` of DeviceMon/vmm.cpp).
use device_mon.Prelude.{
  ℕ, ◌<◌, ◌≡◌, refl, ◌∙◌, ◌≢◌, arith, List, ◌==◌, if◌then◌else◌, bit, bits_and, bit-bits_and,
  bit-bits_or, bit-lt,
}
use device_mon.Cpu.Registers.{Gpr, load}
use device_mon.Vmm.State.{Vcpu, vm_read}
use device_mon.Vmm.Inject.Frames.{adjust-vmcs}
use device_mon.Vmm.Control.{Invalidation, Outcome, continues, apply_fixed, access_cr, move_to_cr}

-- Each bit of `y` is as `x` has it, or as VMX fixes it.
pub record IsFixedUp (fixed0 fixed1 x y : ℕ) : Type 0 where
  pub ones : (i : ℕ) → i < 64 → bit i fixed0 ≡ 1 → bit i y ≡ 1
  pub zeros : (i : ℕ) → i < 64 → bit i fixed0 ≢ 1 → bit i fixed1 ≡ 0 → bit i y ≡ 0
  pub flexible : (i : ℕ) → i < 64 → bit i fixed0 ≢ 1 → bit i fixed1 ≡ 1 → bit i y ≡ bit i x

apply_fixed-bit :
    (fixed0 fixed1 x i : ℕ)
    → i < 64
    → bit i (apply_fixed fixed0 fixed1 x)
      ≡ (if (if bit i x == 1 then bit i fixed1 else 0) == 1 then 1 else bit i fixed0)
unfolding apply_fixed
apply_fixed-bit fixed0 fixed1 x i below =
    bit-bits_or i 64 (bits_and 64 x fixed1) fixed0 below
    ∙ rw (bit-bits_and i 64 x fixed1 below) refl

pub apply_fixed-IsFixedUp :
    (fixed0 fixed1 x : ℕ) → IsFixedUp fixed0 fixed1 x (apply_fixed fixed0 fixed1 x)
apply_fixed-IsFixedUp fixed0 fixed1 x = record {
  ones = λ i below one. ground (arith, apply_fixed-bit fixed0 fixed1 x i below);
  zeros = λ i below loose shut.
      ground (arith, apply_fixed-bit fixed0 fixed1 x i below, bit-lt i fixed0);
  flexible = λ i below loose free.
      ground (arith, apply_fixed-bit fixed0 fixed1 x i below, bit-lt i fixed0, bit-lt i x);
}

-- The guest goes on with a register that VMX allows, which it reads back.
abbrev pub IsGuarded : (register shadow fixed0 fixed1 x : ℕ) → Outcome → Type 0
IsGuarded register shadow fixed0 fixed1 x out =
    (told : List Invalidation) × (v' : Vcpu) × (out ≡ continues told v')
    × IsFixedUp fixed0 fixed1 x (vm_read register v')
    × (vm_read shadow v' ≡ vm_read register v')

-- MOV to CR0 and to CR4 leaves a value in the guest's register whose bits are one or zero where
-- the MSRs say so, and those of the operand elsewhere; the read shadow holds the same value, and
-- the guest goes on.
pub access_cr-IsGuarded :
    (vpid : ℕ) (r : Gpr) (v : Vcpu)
    → IsGuarded 0x6800 0x6004
        (v.msrs 0x486)
        (v.msrs 0x487)
        (load r v.gp_regs)
        (access_cr vpid 0 0 r v)
      × IsGuarded 0x6804 0x6006
          (v.msrs 0x488)
          (v.msrs 0x489)
          (load r v.gp_regs)
          (access_cr vpid 0 4 r v)
unfolding access_cr move_to_cr
access_cr-IsGuarded vpid r v =
    let x = load r v.gp_regs in
    let fixed_up = apply_fixed-IsFixedUp (v.msrs 0x486) (v.msrs 0x487) x in
    let fixed_up' = apply_fixed-IsFixedUp (v.msrs 0x488) (v.msrs 0x489) x in
    (
      (
        _,
        _,
        refl,
        rw (adjust-vmcs 0x6800 (omega arith) (omega arith) (omega arith)) fixed_up,
        rw
            (
              adjust-vmcs 0x6800 (omega arith) (omega arith) (omega arith),
              adjust-vmcs 0x6004 (omega arith) (omega arith) (omega arith),
            )
            refl,
      ),
      (
        _,
        _,
        refl,
        rw (adjust-vmcs 0x6804 (omega arith) (omega arith) (omega arith)) fixed_up',
        rw
            (
              adjust-vmcs 0x6804 (omega arith) (omega arith) (omega arith),
              adjust-vmcs 0x6006 (omega arith) (omega arith) (omega arith),
            )
            refl,
      ),
    )
