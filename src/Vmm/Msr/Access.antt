-- ===== src/Vmm/Msr/Access.antt =====
-- WRMSR and RDMSR.
use device_mon.Prelude.{
  ℕ, ◌%◌, ◌^◌, ◌≡◌, refl, ap, ◌∙◌, inl, inr, arith, true, false, some, Bool-cases, ◌==◌,
  if◌then◌else◌, low_part, high_part, join_parts,
}
use device_mon.Vmm.State.{Vcpu, with_regs}
use device_mon.Vmm.Inject.{inject_interruption, inject_db, adjust_guest_instruction_pointer}
use device_mon.Vmm.Inject.Frames.{adjust-gp_regs, adjust-msrs}
use device_mon.Vmm.Msr.{transfer_to_vmcs, msr_number, read_msr, write_msr, handle_msr_access}

-- The VMM's own register is what the guest sees, unless a field of the VMCS stands for it.
read_msr-adjust :
    (msr : ℕ) (v : Vcpu) → read_msr msr (adjust_guest_instruction_pointer v) ≡ read_msr msr v
unfolding read_msr transfer_to_vmcs adjust_guest_instruction_pointer inject_db inject_interruption
read_msr-adjust msr v = ground arith

-- What an MSR that a field of the VMCS stands for keeps of a value.
abbrev kept_of : ℕ → ℕ → ℕ
kept_of msr x = if msr == 0x174 then x % 2 ^ 32 else x

read_msr-write :
    (msr x f : ℕ) (v : Vcpu)
    → transfer_to_vmcs msr ≡ some f
    → read_msr msr (write_msr msr x v) ≡ kept_of msr x
unfolding read_msr write_msr transfer_to_vmcs
read_msr-write msr x f v is = ground arith

write_msr-gp_regs : (msr x : ℕ) (v : Vcpu) → (write_msr msr x v).gp_regs ≡ v.gp_regs
unfolding write_msr transfer_to_vmcs
write_msr-gp_regs msr x v = ground arith

-- What RDMSR leaves in the two registers.
handle_msr_access-read :
    (v : Vcpu) (x : ℕ)
    → read_msr (msr_number v) v ≡ x
    → ((handle_msr_access true v).gp_regs.ax ≡ low_part x)
      × ((handle_msr_access true v).gp_regs.dx ≡ high_part x)
unfolding handle_msr_access
handle_msr_access-read v x is =
    let value : ℕ = read_msr (msr_number v) v in
    let w : Vcpu = with_regs (record v.gp_regs { ax = low_part value; dx = high_part value }) v in
    (
      ap (λ g. g.ax) (adjust-gp_regs w) ∙ ap low_part is,
      ap (λ g. g.dx) (adjust-gp_regs w) ∙ ap high_part is,
    )

write_msr-msrs :
    (msr x f : ℕ) (v : Vcpu) → transfer_to_vmcs msr ≡ some f → (write_msr msr x v).msrs ≡ v.msrs
unfolding write_msr
write_msr-msrs msr x f v is = rw (is, write_msr) refl

-- WRMSR leaves the number of the MSR, and RDMSR of it gives what is kept of the value.
handle_msr_access-write :
    (v : Vcpu) (f : ℕ)
    → transfer_to_vmcs (msr_number v) ≡ some f
    → let v' = handle_msr_access false v in
      read_msr (msr_number v') v' ≡ kept_of (msr_number v) (join_parts v.gp_regs.dx v.gp_regs.ax)
unfolding handle_msr_access
handle_msr_access-write v f is =
    let msr : ℕ = msr_number v in
    let x : ℕ = join_parts v.gp_regs.dx v.gp_regs.ax in
    let w : Vcpu = write_msr msr x v in
    let regs = adjust-gp_regs w ∙ write_msr-gp_regs msr x v in
    ap (λ g. read_msr (g.cx % 2 ^ 32) (adjust_guest_instruction_pointer w)) regs
    ∙ read_msr-adjust msr w
    ∙ read_msr-write msr x f v is

handle_msr_access-msrs :
    (v : Vcpu) (f : ℕ)
    → transfer_to_vmcs (msr_number v) ≡ some f
    → (handle_msr_access false v).msrs ≡ v.msrs
unfolding handle_msr_access
handle_msr_access-msrs v f is =
    let msr : ℕ = msr_number v in
    let x : ℕ = join_parts v.gp_regs.dx v.gp_regs.ax in
    adjust-msrs (write_msr msr x v) ∙ write_msr-msrs msr x f v is

-- For an MSR that a field of the VMCS stands for, RDMSR after WRMSR gives the guest the low
-- halves of the registers that it wrote, but an upper half of 0 for IA32_SYSENTER_CS, whose field
-- has 32 bits. The processor's MSRs stay as they were.
pub handle_msr_access-read-write :
    (v : Vcpu) (f : ℕ)
    → transfer_to_vmcs (msr_number v) ≡ some f
    → let v' = handle_msr_access false v in
      let g = (handle_msr_access true v').gp_regs in
      (g.ax ≡ low_part v.gp_regs.ax)
      × (g.dx ≡ (if msr_number v == 0x174 then 0 else low_part v.gp_regs.dx))
      × (v'.msrs ≡ v.msrs)
handle_msr_access-read-write v f is =
    let x : ℕ = join_parts v.gp_regs.dx v.gp_regs.ax in
    let seen =
      handle_msr_access-read (handle_msr_access false v) (kept_of (msr_number v) x)
        (handle_msr_access-write v f is) in
    elim (Bool-cases (msr_number v == 0x174)) [
      | inl narrow ↦ (
        seen.0 ∙ rw narrow (omega arith),
        rw narrow (seen.1 ∙ rw narrow (omega arith)),
        handle_msr_access-msrs v f is,
      )
      | inr wide ↦ (
        seen.0 ∙ rw wide (omega arith),
        rw wide (seen.1 ∙ rw wide (omega arith)),
        handle_msr_access-msrs v f is,
      )
    ]
