-- ===== src/Vmm/Dispatch/Progress.antt =====
-- What `VmmpHandleVmExit` (DeviceMon/vmm.cpp) does to the instruction pointer of the guest.
use device_mon.Prelude.{
  ◌+◌, ◌%◌, ◌^◌, ◌≡◌, refl, ◌⊎◌, inl, inr, none, some, Bool, true, false, arith, List, field,
}
use device_mon.Ept.Tables.{Ept, Run, ok}
use device_mon.Vmm.State.{vm_read}
use device_mon.Vmm.Exits.{
  handle_cpuid, handle_rdtsc, handle_rdtscp, handle_xsetbv, handle_vmx, handle_exception,
}
use device_mon.Vmm.Exits.Advance.{exits-IsAdvanced, adjust-IsAdvanced}
use device_mon.Vmm.Debug.{select_gpr}
use device_mon.Vmm.Io.{handle_io_port}
use device_mon.Vmm.Msr.{handle_msr_access}
use device_mon.Vmm.Control.{
  advanced, access_cr, handle_cr_access, handle_invalidate_internal_caches,
  handle_invalidate_tlb_entry,
}
use device_mon.Vmm.Descriptor.{
  operation_address, selector_operand, handle_gdtr_or_idtr_access, handle_ldtr_or_tr_access,
}
use device_mon.Vmm.Exits
use device_mon.Vmm.Exits.Reinject.{Answered, reinjected, stopped, handle_exception-Answered}
use device_mon.Vmm.Control
use device_mon.Vmm.Control.Kept.{IsKept, accessed-IsKept}
use device_mon.Vmm.Dispatch.{
  Machine, World, Effect, of_exception, of_control, Verdict, resumes, stops, Reason, handle_reason,
}
use device_mon.Vmm.Dispatch.Past.{
  IsPast, adjust-IsPast, write_msr-len, write_msr-ip, access_selector-kept, access_table-kept,
  IsInjected, handle_dr_access-Progress,
}

-- The instructions that are carried out whatever their operands are.
abbrev pub is_emulated : Reason → Bool
is_emulated Reason.cpuid = true
is_emulated Reason.invd = true
is_emulated Reason.invlpg = true
is_emulated Reason.rdtsc = true
is_emulated Reason.io_instruction = true
is_emulated Reason.msr_read = true
is_emulated Reason.msr_write = true
is_emulated Reason.gdtr_or_idtr_access = true
is_emulated Reason.ldtr_or_tr_access = true
is_emulated Reason.vmx_instruction = true
is_emulated Reason.rdtscp = true
is_emulated Reason.xsetbv = true
is_emulated _ = false

-- Of those, the ones whose handlers carry out an instruction that can fault in the VMM itself.
abbrev pub can_fault : Reason → Bool
can_fault Reason.msr_read = true
can_fault Reason.msr_write = true
can_fault Reason.xsetbv = true
can_fault _ = false

-- The three exits whose handlers go into the page tables.
abbrev pub enters_tables : Reason → Bool
enters_tables Reason.ept_violation = true
enters_tables Reason.monitor_trap_flag = true
enters_tables Reason.vmcall = true
enters_tables _ = false

module _ {S M : Type 0} where
  -- The guest goes on behind the instruction, and the page tables are as they were.
  abbrev pub Steps : World S M → Ept → Run (Verdict S M) → Type 0
  Steps w s run =
      (told : List Effect) × (w' : World S M) × (run ≡ ok (resumes told w') s)
      × IsPast w.vcpu w'.vcpu

  emulated-Steps :
      (k : Machine S M) (r : Reason) (w : World S M) (s : Ept)
      → is_emulated r ≡ true
      → Steps w s (handle_reason k r w s)
  unfolding handle_reason handle_io_port handle_invalidate_internal_caches
      handle_invalidate_tlb_entry handle_gdtr_or_idtr_access handle_ldtr_or_tr_access
      handle_msr_access
  emulated-Steps k Reason.cpuid w s e =
      (_, _, refl, (exits-IsAdvanced k.cpuid k.tsc k.tsc_aux w.vcpu).0.next)
  emulated-Steps k Reason.rdtsc w s e =
      (_, _, refl, (exits-IsAdvanced k.cpuid k.tsc k.tsc_aux w.vcpu).1.next)
  emulated-Steps k Reason.rdtscp w s e =
      (_, _, refl, (exits-IsAdvanced k.cpuid k.tsc k.tsc_aux w.vcpu).2.next)
  emulated-Steps k Reason.xsetbv w s e =
      (_, _, refl, (exits-IsAdvanced k.cpuid k.tsc k.tsc_aux w.vcpu).3.next)
  emulated-Steps k Reason.vmx_instruction w s e =
      (_, _, refl, (exits-IsAdvanced k.cpuid k.tsc k.tsc_aux w.vcpu).4.next)
  emulated-Steps k Reason.invd w s e = (_, _, refl, (adjust-IsAdvanced w.vcpu).next)
  emulated-Steps k Reason.invlpg w s e = (_, _, refl, (adjust-IsAdvanced w.vcpu).next)
  emulated-Steps k Reason.io_instruction w s e =
      (_, _, refl, adjust-IsPast w.vcpu _ (ground arith) (ground arith))
  emulated-Steps k Reason.msr_read w s e = (_, _, refl, adjust-IsPast w.vcpu _ refl refl)
  emulated-Steps k Reason.msr_write w s e =
      (_, _, refl, adjust-IsPast w.vcpu _ (write_msr-ip _ _ w.vcpu) (write_msr-len _ _ w.vcpu))
  emulated-Steps k Reason.gdtr_or_idtr_access w s e =
      let kept =
        access_table-kept (field 28 2 (vm_read 0x440e w.vcpu)) (operation_address w.vcpu) w.vcpu
          w.memory in
      (_, _, refl, adjust-IsPast w.vcpu _ kept.0 kept.1)
  emulated-Steps k Reason.ldtr_or_tr_access w s e =
      let kept =
        access_selector-kept (field 28 2 (vm_read 0x440e w.vcpu)) (selector_operand w.vcpu) w.vcpu
          w.memory in
      (_, _, refl, adjust-IsPast w.vcpu _ kept.0 kept.1)
  emulated-Steps k r w s e = absurd (ground arith)

  -- For an exit by CPUID, INVD, INVLPG, RDTSC, RDTSCP, IN or OUT, an access to a descriptor table
  -- register or a selector, or a VMX instruction but VMCALL, the guest is resumed behind the
  -- instruction, and the page tables stay as they were; the memory that the guest names is taken
  -- to be accessible for the VMM. Exits whose handlers execute an instruction that can fault in
  -- the VMM, by RDMSR, WRMSR and XSETBV, are left out.
  pub handle_reason-Steps :
      (k : Machine S M) (r : Reason) (w : World S M) (s : Ept)
      → is_emulated r ≡ true
      → can_fault r ≡ false
      → Steps w s (handle_reason k r w s)
  handle_reason-Steps k r w s e safe = emulated-Steps k r w s e

  -- The system stops, or the guest goes on behind the instruction or with an event.
  abbrev pub Progress : World S M → Ept → Run (Verdict S M) → Type 0
  Progress w s run =
      (run ≡ ok stops s)
      ⊎ ((told : List Effect) × (w' : World S M) × (run ≡ ok (resumes told w') s)
          × (IsPast w.vcpu w'.vcpu ⊎ IsInjected w'.vcpu))

  of_steps :
      (k : Machine S M) (r : Reason) (w : World S M) (s : Ept)
      → is_emulated r ≡ true
      → Progress w s (handle_reason k r w s)
  of_steps k r w s e =
      let (told, w', run, past) = emulated-Steps k r w s e in inr (told, w', run, inl past)

  of_exception-Progress :
      (w : World S M) (s : Ept) (out : Exits.Outcome)
      → Answered w.vcpu out
      → Progress w s (ok (of_exception out w) s)
  of_exception-Progress w s (Exits.Outcome.continues none v') (reinjected e r) =
      inr (_, _, refl, inr r.valid)
  of_exception-Progress w s (Exits.Outcome.continues (some x) v') (reinjected e r) =
      inr (_, _, refl, inr r.valid)
  of_exception-Progress w s Exits.Outcome.bug_check (stopped e) = inl refl

  of_control-Progress :
      (w : World S M) (s : Ept) (out : Control.Outcome)
      → IsKept w.vcpu out
      → Progress w s (ok (of_control (advanced out) w) s)
  of_control-Progress w s (Control.Outcome.continues told v') kept =
      inr (_, _, refl, inl (adjust-IsPast w.vcpu v' kept.0 kept.1))
  of_control-Progress w s Control.Outcome.bug_check kept = inl refl

  -- For every exit but EPT violations, single steps and VMCALL, the system stops, or the guest is
  -- resumed behind the instruction or with an event injected, and the page tables stay as they
  -- were.
  pub handle_reason-Progress :
      (k : Machine S M) (r : Reason) (w : World S M) (s : Ept)
      → enters_tables r ≡ false
      → Progress w s (handle_reason k r w s)
  unfolding handle_reason handle_cr_access access_cr
  handle_reason-Progress k Reason.exception_or_nmi w s e =
      of_exception-Progress w s (handle_exception w.vcpu) (handle_exception-Answered w.vcpu)
  handle_reason-Progress k Reason.triple_fault w s e = inl refl
  handle_reason-Progress k Reason.ept_misconfig w s e = inl refl
  handle_reason-Progress k Reason.other w s e = inl refl
  handle_reason-Progress k Reason.dr_access w s e =
      inr (_, _, refl, handle_dr_access-Progress w.vcpu)
  handle_reason-Progress k Reason.cr_access w s e =
      let q = vm_read 0x6400 w.vcpu in
      of_control-Progress w s _ (
        accessed-IsKept ((k.processor + 1) % 2 ^ 16) (field 4 2 q) (field 0 4 q)
          (select_gpr (field 8 4 q)) w.vcpu)
  handle_reason-Progress k Reason.ept_violation w s e = absurd (ground arith)
  handle_reason-Progress k Reason.monitor_trap_flag w s e = absurd (ground arith)
  handle_reason-Progress k Reason.vmcall w s e = absurd (ground arith)
  handle_reason-Progress k Reason.cpuid w s e = of_steps k Reason.cpuid w s refl
  handle_reason-Progress k Reason.invd w s e = of_steps k Reason.invd w s refl
  handle_reason-Progress k Reason.invlpg w s e = of_steps k Reason.invlpg w s refl
  handle_reason-Progress k Reason.rdtsc w s e = of_steps k Reason.rdtsc w s refl
  handle_reason-Progress k Reason.io_instruction w s e = of_steps k Reason.io_instruction w s refl
  handle_reason-Progress k Reason.msr_read w s e = of_steps k Reason.msr_read w s refl
  handle_reason-Progress k Reason.msr_write w s e = of_steps k Reason.msr_write w s refl
  handle_reason-Progress k Reason.gdtr_or_idtr_access w s e =
      of_steps k Reason.gdtr_or_idtr_access w s refl
  handle_reason-Progress k Reason.ldtr_or_tr_access w s e =
      of_steps k Reason.ldtr_or_tr_access w s refl
  handle_reason-Progress k Reason.vmx_instruction w s e = of_steps k Reason.vmx_instruction w s refl
  handle_reason-Progress k Reason.rdtscp w s e = of_steps k Reason.rdtscp w s refl
  handle_reason-Progress k Reason.xsetbv w s e = of_steps k Reason.xsetbv w s refl
