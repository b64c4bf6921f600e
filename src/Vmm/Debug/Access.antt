-- ===== src/Vmm/Debug/Access.antt =====
-- MOV to and from the debug registers.
use device_mon.Prelude.{
  ℕ, ◌^◌, ◌<◌, ◌≡◌, refl, ap, ◌∙◌, ◌≢◌, ◌⊎◌, inl, inr, arith, test_of_ne, Bool, true, false, ◌||◌,
  ◌==◌, ltb, if◌then◌else◌, field, set_field, ◌&&◌, Bool-cases, eq_of_test, ne_of_test,
}
use device_mon.Cpu.Registers.{Gpr, load, store, load-store}
use device_mon.Vmm.State.{Vcpu, vm_read, with_regs}
use device_mon.Vmm.Inject.{
  inject_interruption, inject_db, inject_ud, inject_gp, get_guest_cpl,
  adjust_guest_instruction_pointer,
}
use device_mon.Vmm.Inject.Frames.{adjust-gp_regs, adjust-drs, adjust-dr7}
use device_mon.Vmm.Debug.{
  select_gpr, dr6_value, move_to_dr, move_from_dr, general_detect, move_dr, access_dr,
  handle_dr_access,
}

-- An exception will be delivered, and the guest neither got a value nor changed DR0 to DR3, nor was
-- its instruction pointer moved.
pub record IsFaulted (v v' : Vcpu) : Type 0 where
  pub same_regs : v'.gp_regs ≡ v.gp_regs
  pub same_breakpoints : (k : ℕ) → k < 4 → v'.drs k ≡ v.drs k
  pub same_ip : vm_read 0x681e v' ≡ vm_read 0x681e v
  pub pending : field 31 1 (vm_read 0x4016 v') ≡ 1

general_detect-IsFaulted : (v : Vcpu) → IsFaulted v (general_detect v)
unfolding general_detect inject_db inject_interruption
general_detect-IsFaulted v = record {
  same_regs = refl;
  same_breakpoints = λ k low. ground arith;
  same_ip = refl;
  pending = refl;
}

inject_gp-IsFaulted : (v : Vcpu) → IsFaulted v (inject_gp v)
unfolding inject_gp inject_interruption
inject_gp-IsFaulted v = record {
  same_regs = refl;
  same_breakpoints = λ k low. refl;
  same_ip = refl;
  pending = refl;
}

inject_ud-IsFaulted : (v : Vcpu) → IsFaulted v (inject_ud v)
unfolding inject_ud inject_interruption
inject_ud-IsFaulted v = record {
  same_regs = refl;
  same_breakpoints = λ k low. refl;
  same_ip = refl;
  pending = refl;
}

-- The debug register that the instruction names.
abbrev pub named_dr : Vcpu → ℕ
named_dr v = field 0 3 (vm_read 0x6400 v)

-- It names DR4 or DR5 while CR4.DE is set.
abbrev pub is_undefined : Vcpu → Bool
is_undefined v = (named_dr v == 4 || named_dr v == 5) && (field 3 1 (vm_read 0x6804 v) == 1)

-- The debug registers and DR7 are as they were.
abbrev pub SameDebug : Vcpu → Vcpu → Type 0
SameDebug v v' = (v'.drs ≡ v.drs) × (vm_read 0x681a v' ≡ vm_read 0x681a v)

-- Which exception it is, and what becomes of DR6 and DR7.
pub data Faulted (v v' : Vcpu) : Type 0 where
  protected :
      get_guest_cpl v ≢ 0
      → IsFaulted v v'
      → SameDebug v v'
      → vm_read 0x4016 v' ≡ 0x80000b0d
      → vm_read 0x4018 v' ≡ 0
      → Faulted v v'
  undefined :
      get_guest_cpl v ≡ 0
      → is_undefined v ≡ true
      → IsFaulted v v'
      → SameDebug v v'
      → vm_read 0x4016 v' ≡ 0x80000306
      → Faulted v v'
  detected :
      get_guest_cpl v ≡ 0
      → is_undefined v ≡ false
      → IsFaulted v v'
      → v'.drs 6 ≡ set_field 13 1 1 (set_field 0 4 0 (v.drs 6))
      → vm_read 0x681a v' ≡ set_field 13 1 0 (vm_read 0x681a v)
      → vm_read 0x4016 v' ≡ 0x80000301
      → Faulted v v'

inject_gp-Faulted : (v : Vcpu) → get_guest_cpl v ≢ 0 → Faulted v (inject_gp v)
unfolding inject_gp inject_interruption
inject_gp-Faulted v user = protected user (inject_gp-IsFaulted v) (refl, refl) refl refl

inject_ud-Faulted :
    (v : Vcpu) → get_guest_cpl v ≡ 0 → is_undefined v ≡ true → Faulted v (inject_ud v)
unfolding inject_ud inject_interruption
inject_ud-Faulted v kernel which = undefined kernel which (inject_ud-IsFaulted v) (refl, refl) refl

access_dr-Faulted :
    (dr direction : ℕ) (r : Gpr) (v : Vcpu)
    → field 13 1 (vm_read 0x681a v) ≡ 1
    → get_guest_cpl v ≡ 0
    → is_undefined v ≡ false
    → Faulted v (access_dr dr r direction v)
unfolding access_dr general_detect inject_db inject_interruption
access_dr-Faulted dr direction r v gd kernel which =
    rw (gd, access_dr) (detected kernel which (general_detect-IsFaulted v) refl refl refl)

-- If the guest is not at CPL 0, or DR7.GD is set, an access to a debug register moves no value in
-- either direction, and the instruction pointer stays. Outside of CPL 0 the guest gets #GP(0), at
-- CPL 0 it gets #UD if it names DR4 or DR5 while CR4.DE is set; DR6 and DR7 are as they were
-- then. Else it gets #DB, where DR6.BD is set, its bits 0 to 3 are cleared, and DR7.GD is
-- cleared, and no more.
pub handle_dr_access-Faulted :
    (v : Vcpu)
    → (get_guest_cpl v ≢ 0) ⊎ (field 13 1 (vm_read 0x681a v) ≡ 1)
    → Faulted v (handle_dr_access v)
unfolding handle_dr_access
handle_dr_access-Faulted v why =
    let direction : ℕ = field 4 1 (vm_read 0x6400 v) in
    let r : Gpr = select_gpr (field 8 4 (vm_read 0x6400 v)) in
    elim (Bool-cases (get_guest_cpl v == 0)) [
      | inr user ↦ rw (user, handle_dr_access) (inject_gp-Faulted v (ne_of_test _ 0 user))
      | inl kernel ↦
          let ring : get_guest_cpl v ≡ 0 = eq_of_test _ 0 kernel in
          let gd : field 13 1 (vm_read 0x681a v) ≡ 1 = elim why [
            | inl user ↦ absurd (user ring)
            | inr set ↦ set
          ] in
          elim (Bool-cases (named_dr v == 4 || named_dr v == 5)) [
            | inr plain ↦
                rw (kernel, plain, handle_dr_access)
                  (access_dr-Faulted (named_dr v) direction r v gd ring (rw plain refl))
            | inl renamed ↦ elim (Bool-cases (field 3 1 (vm_read 0x6804 v) == 1)) [
              | inl extended ↦
                  rw (kernel, renamed, extended, handle_dr_access)
                    (inject_ud-Faulted v ring (rw (renamed, extended) refl))
              | inr old ↦
                  rw (kernel, renamed, old, handle_dr_access)
                    (access_dr-Faulted (if named_dr v == 4 then 6 else 7) direction r v gd ring
                      (rw (renamed, old) refl))
            ]
          ]
    ]

-- The value that MOV writes to a debug register, and reads from it.
abbrev pub kept_value : ℕ → ℕ → ℕ
kept_value dr x = if dr == 6 then dr6_value x else x

-- The registers and values for which a move to a debug register is made.
abbrev pub IsPlain : ℕ → ℕ → Type 0
IsPlain dr x = (dr < 4) ⊎ ((dr ≡ 6) × (x < 2 ^ 32))

test_of_lt : (a b : ℕ) → a < b → ltb a b ≡ true
test_of_lt a b h = ground arith

module _ (dr : ℕ) where
  move_dr-to :
      (r : Gpr) (v : Vcpu)
      → IsPlain dr (load r v.gp_regs)
      → move_dr dr r 0 v ≡ adjust_guest_instruction_pointer (move_to_dr dr (load r v.gp_regs) v)
  unfolding move_dr
  move_dr-to r v (inl low) = ground arith
  move_dr-to r v (inr (six, small)) = ground arith

  move_to_dr-drs :
      (x : ℕ) (v : Vcpu)
      → IsPlain dr x
      → ((move_to_dr dr x v).drs dr ≡ kept_value dr x)
        × (vm_read 0x681a (move_to_dr dr x v) ≡ vm_read 0x681a v)
  unfolding move_to_dr
  move_to_dr-drs x v (inl low) = ground arith
  move_to_dr-drs x v (inr (six, small)) = ground arith

  move_dr-from :
      (r : Gpr) (v : Vcpu) → (dr < 4) ⊎ (dr ≡ 6) → load r (move_dr dr r 1 v).gp_regs ≡ v.drs dr
  unfolding move_dr move_from_dr
  move_dr-from r v (inl low) =
      rw (test_of_lt dr 4 low, move_from_dr)
        (ap (load r) (adjust-gp_regs (with_regs (store r (v.drs dr) v.gp_regs) v))
          ∙ load-store r (v.drs dr) v.gp_regs)
  move_dr-from r v (inr six) =
      rw (six, move_from_dr)
        (ap (load r) (adjust-gp_regs (with_regs (store r (v.drs 6) v.gp_regs) v))
          ∙ load-store r (v.drs 6) v.gp_regs)

number : {dr x : ℕ} → IsPlain dr x → (dr < 4) ⊎ (dr ≡ 6)
number (inl low) = inl low
number (inr (six, small)) = inr six

-- A value that is moved to DR0, DR1, DR2, DR3 or, with the upper half 0, to DR6 while DR7.GD is
-- clear is what a move from that register gives next in any register but RSP, in the case of DR6
-- with the reserved bits at their fixed values.
pub access_dr-access_dr :
    (dr : ℕ) (r r' : Gpr) (v : Vcpu)
    → IsPlain dr (load r v.gp_regs)
    → field 13 1 (vm_read 0x681a v) ≢ 1
    → r' ≢ Gpr.sp
    → load r' (access_dr dr r' 1 (access_dr dr r 0 v)).gp_regs ≡ kept_value dr (load r v.gp_regs)
unfolding access_dr
access_dr-access_dr dr r r' v which gd outside =
    let x : ℕ = load r v.gp_regs in
    let w : Vcpu = move_to_dr dr x v in
    let (held, same) = move_to_dr-drs dr x v which in
    let clear : (field 13 1 (vm_read 0x681a (adjust_guest_instruction_pointer w)) == 1) ≡ false =
      test_of_ne _ 1 (rw (adjust-dr7 w, same) gd) in
    rw (test_of_ne (field 13 1 (vm_read 0x681a v)) 1 gd, access_dr)
      (rw (move_dr-to dr r v which, clear, access_dr)
        (move_dr-from dr r' (adjust_guest_instruction_pointer w) (number which)
          ∙ ap (λ d. d dr) (adjust-drs w)
          ∙ held))
