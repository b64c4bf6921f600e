-- ===== src/Vmm/Exits/Advance.antt =====
-- Where the guest goes on.
use device_mon.Prelude.{ℕ, ◌+◌, ◌*◌, ◌%◌, ◌^◌, ◌≡◌, ◌≢◌, sym, ◌∙◌, arith, field, set_field}
use device_mon.Cpu.Registers.{GpRegisters}
use device_mon.Vmm.State.{Vcpu, vm_read, with_regs}
use device_mon.Vmm.Inject.{
  inject_interruption, inject_db, adjust_guest_instruction_pointer, clear_status, with_flags,
}
use device_mon.Vmm.Exits.{
  CpuInfo, handle_cpuid, handle_rdtsc, handle_rdtscp, handle_xsetbv, handle_vmx,
}

-- The instruction pointer is behind the instruction. While TF is set, #DB will be delivered.
pub record IsAdvanced (v v' : Vcpu) : Type 0 where
  pub next : vm_read 0x681e v' ≡ (v.ip + vm_read 0x440c v) % 2 ^ 64
  pub stepping : field 8 1 v.flag_reg ≡ 1 → vm_read 0x4016 v' ≡ 2 ^ 31 + 3 * 2 ^ 8 + 1
  pub running : field 8 1 v.flag_reg ≢ 1 → vm_read 0x4016 v' ≡ vm_read 0x4016 v

pub adjust-IsAdvanced : (v : Vcpu) → IsAdvanced v (adjust_guest_instruction_pointer v)
unfolding adjust_guest_instruction_pointer inject_db inject_interruption
adjust-IsAdvanced v = record {
  next = ground arith;
  stepping = λ tf. ground arith;
  running = λ tf. ground arith;
}

-- A change of a status flag leaves TF alone.
module _ (x : ℕ) where
  tf_0 : (b : ℕ) → field 8 1 (set_field 0 1 b x) ≡ field 8 1 x
  tf_0 b = omega arith

  tf_2 : field 8 1 (set_field 2 1 0 x) ≡ field 8 1 x
  tf_2 = omega arith

  tf_4 : field 8 1 (set_field 4 1 0 x) ≡ field 8 1 x
  tf_4 = omega arith

  tf_6 : field 8 1 (set_field 6 1 0 x) ≡ field 8 1 x
  tf_6 = omega arith

  tf_7 : field 8 1 (set_field 7 1 0 x) ≡ field 8 1 x
  tf_7 = omega arith

  tf_11 : field 8 1 (set_field 11 1 0 x) ≡ field 8 1 x
  tf_11 = omega arith

clear_status-tf : (x : ℕ) → field 8 1 (clear_status x) ≡ field 8 1 x
clear_status-tf x =
    let x₀ : ℕ = set_field 0 1 0 x in
    let x₂ : ℕ = set_field 2 1 0 x₀ in
    let x₄ : ℕ = set_field 4 1 0 x₂ in
    let x₆ : ℕ = set_field 6 1 0 x₄ in
    let x₇ : ℕ = set_field 7 1 0 x₆ in tf_11 x₇ ∙ tf_7 x₆ ∙ tf_6 x₄ ∙ tf_4 x₂ ∙ tf_2 x₀ ∙ tf_0 x 0

with_flags-IsAdvanced :
    (flags : ℕ) (v : Vcpu)
    → field 8 1 flags ≡ field 8 1 v.flag_reg
    → IsAdvanced v (adjust_guest_instruction_pointer (with_flags flags v))
with_flags-IsAdvanced flags v same =
    let a = adjust-IsAdvanced (with_flags flags v) in
    record {
      next = a.next;
      stepping = λ tf. a.stepping (same ∙ tf);
      running = λ tf. a.running (λ e. tf (sym same ∙ e));
    }

-- CPUID, RDTSC, RDTSCP, XSETBV and the VMX instructions go on behind the instruction; a guest with
-- TF set gets #DB, and no event is injected otherwise.
pub exits-IsAdvanced :
    (cpuid : ℕ → ℕ → CpuInfo) (tsc tsc_aux : ℕ) (v : Vcpu)
    → IsAdvanced v (handle_cpuid cpuid v)
      × IsAdvanced v (handle_rdtsc tsc v)
      × IsAdvanced v (handle_rdtscp tsc tsc_aux v)
      × IsAdvanced v (handle_xsetbv v).1
      × IsAdvanced v (handle_vmx v)
unfolding handle_cpuid handle_rdtsc handle_rdtscp handle_xsetbv handle_vmx
exits-IsAdvanced cpuid tsc tsc_aux v =
    let regs : (g : GpRegisters) → IsAdvanced v (adjust_guest_instruction_pointer (with_regs g v)) =
      λ g.
        let a = adjust-IsAdvanced (with_regs g v) in
        record { next = a.next; stepping = a.stepping; running = a.running } in
    (
      regs _,
      regs _,
      regs _,
      adjust-IsAdvanced v,
      with_flags-IsAdvanced _ v (tf_0 (clear_status v.flag_reg) 1 ∙ clear_status-tf v.flag_reg),
    )
