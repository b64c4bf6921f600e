-- ===== src/Vmm/Dispatch.antt =====
-- `VmmVmExitHandler`, `VmmpHandleVmExit`, `VmmpHandleTripleFault`, `VmmpHandleUnexpectedExit` and
-- `VmmpHandleEptMisconfig` of DeviceMon/vmm.cpp: what a VM exit is answered with. The request level
-- of interrupts and the trap frame, which only a debugger
-- reads, are left out, and the recording of the exits is switched off (`kVmmpEnableRecordVmExit`).
pub mod Past
pub mod Progress
use device_mon.Prelude.{
  ℕ, ◌+◌, ◌*◌, ◌/◌, ◌%◌, ◌^◌, Bool, true, false, ◌&&◌, Option, none, some, List, [], ◌∷◌, ◌++◌, map,
  ◌==◌, leb, if◌then◌else◌, field, Bytes,
}
use device_mon.Ept.Tables.{Ept, Run, ok, fault, ◌>>=◌, pure}
use device_mon.Devices.Pci.{PciBus}
use device_mon.Vmm.State.{Vcpu, vm_read}
use device_mon.Vmm.Exits
use device_mon.Vmm.Exits.{
  CpuInfo, handle_cpuid, handle_rdtsc, handle_rdtscp, handle_xsetbv, handle_vmx, handle_exception,
}
use device_mon.Vmm.Msr.{handle_msr_access}
use device_mon.Vmm.Debug.{handle_dr_access}
use device_mon.Vmm.Hypercall.{Found, handle_vmcall}
use device_mon.Vmm.Mmio.{Environment, vmm_handle_ept_violation, handle_monitor_trap}
use device_mon.Vmm.Io.{Ports, handle_io_port}
use device_mon.Vmm.Control
use device_mon.Vmm.Control.{
  Invalidation, handle_cr_access, handle_invalidate_internal_caches, handle_invalidate_tlb_entry,
}
use device_mon.Vmm.Descriptor.{handle_gdtr_or_idtr_access, handle_ldtr_or_tr_access}

-- The processor and what the handlers ask it and the system: `S` is the state of the bus, `M` that
-- of the ports.
pub record Machine (S M : Type 0) : Type 0 where
  pub cpuid : ℕ → ℕ → CpuInfo
  pub tsc : ℕ
  pub tsc_aux : ℕ
  pub processor : ℕ
  pub bus : PciBus S
  pub store : ℕ → S → Option S
  pub ports : Ports M
  pub env : Environment

pub record World (S M : Type 0) : Type 0 where
  pub vcpu : Vcpu
  pub found : Found S
  pub port_state : M
  pub memory : Bytes

-- What a handler does to the processor it runs on.
pub data Effect : Type 0 where
  write_cr2 : ℕ → Effect
  xsetbv : (index value : ℕ) → Effect
  invalidate : Invalidation → Effect
  invept_global invvpid_all : Effect

pub data Verdict (S M : Type 0) : Type 0 where
  resumes : List Effect → World S M → Verdict S M
  stops : Verdict S M

-- The labels of the switch; those of the VMX instructions have one body.
pub data Reason : Type 0 where
  exception_or_nmi triple_fault cpuid invd invlpg rdtsc cr_access dr_access io_instruction : Reason
  msr_read msr_write monitor_trap_flag gdtr_or_idtr_access ldtr_or_tr_access : Reason
  ept_violation ept_misconfig vmcall vmx_instruction rdtscp xsetbv other : Reason

-- `VmxExitReason`, the labels from 46 on and those of the VMX instructions.
unfoldable exit_reason_high : ℕ → Reason
exit_reason_high n =
    if n == 46
    then gdtr_or_idtr_access
    else (if n == 47
        then ldtr_or_tr_access
        else (if n == 48
            then ept_violation
            else (if n == 49
                then ept_misconfig
                else (if n == 18
                    then vmcall
                    else (if leb 19 n && leb n 27
                        then vmx_instruction
                        else (if n == 50
                            then vmx_instruction
                            else (if n == 53
                                then vmx_instruction
                                else (if n == 51
                                    then rdtscp
                                    else (if n == 55 then Reason.xsetbv else other)))))))))

unfoldable pub exit_reason : ℕ → Reason
unfolding exit_reason_high
exit_reason n =
    if n == 0
    then exception_or_nmi
    else (if n == 2
        then triple_fault
        else (if n == 10
            then Reason.cpuid
            else (if n == 13
                then invd
                else (if n == 14
                    then invlpg
                    else (if n == 16
                        then rdtsc
                        else (if n == 28
                            then cr_access
                            else (if n == 29
                                then dr_access
                                else (if n == 30
                                    then io_instruction
                                    else (if n == 31
                                        then msr_read
                                        else (if n == 32
                                            then msr_write
                                            else (if n == 37
                                                then monitor_trap_flag
                                                else exit_reason_high n)))))))))))

-- The `GuestContext` that the handler starts with: 0x6820 is `kGuestRflags`, 0x681e `kGuestRip`,
-- 0x681c `kGuestRsp`; `cr8` is that of the processor.
unfoldable pub capture : (cr8 : ℕ) → Vcpu → Vcpu
capture cr8 v = record v {
  gp_regs = record v.gp_regs { sp = vm_read 0x681c v };
  flag_reg = vm_read 0x6820 v;
  ip = vm_read 0x681e v;
  cr8 = cr8;
  vm_continue = true;
}

module _ {S M : Type 0} where
  abbrev pub with_vcpu : Vcpu → World S M → World S M
  with_vcpu v w = record w { vcpu = v }

  abbrev pub of_exception : Exits.Outcome → World S M → Verdict S M
  of_exception (Exits.Outcome.continues none v) w = resumes [] (with_vcpu v w)
  of_exception (Exits.Outcome.continues (some x) v) w = resumes (write_cr2 x ∷ []) (with_vcpu v w)
  of_exception Exits.Outcome.bug_check w = stops

  abbrev pub of_control : Control.Outcome → World S M → Verdict S M
  of_control (Control.Outcome.continues told v) w = resumes (map invalidate told) (with_vcpu v w)
  of_control Control.Outcome.bug_check w = stops

  abbrev pub of_memory : Vcpu × Bytes → World S M → Verdict S M
  of_memory (v, m) w = resumes [] (record w { vcpu = v; memory = m })

  -- The body of the switch.
  unfoldable pub handle_reason : Machine S M → Reason → World S M → Ept → Run (Verdict S M)
  handle_reason k exception_or_nmi w = pure (of_exception (handle_exception w.vcpu) w)
  handle_reason k triple_fault w = pure stops
  handle_reason k cpuid w = pure (resumes [] (with_vcpu (handle_cpuid k.cpuid w.vcpu) w))
  handle_reason k invd w = pure (of_control (handle_invalidate_internal_caches w.vcpu) w)
  handle_reason k invlpg w = pure (of_control (handle_invalidate_tlb_entry k.processor w.vcpu) w)
  handle_reason k rdtsc w = pure (resumes [] (with_vcpu (handle_rdtsc k.tsc w.vcpu) w))
  handle_reason k cr_access w = pure (of_control (handle_cr_access k.processor w.vcpu) w)
  handle_reason k dr_access w = pure (resumes [] (with_vcpu (handle_dr_access w.vcpu) w))
  handle_reason k io_instruction w =
      let done = handle_io_port k.ports w.vcpu w.port_state in
      pure (resumes [] (record w { vcpu = done.0; port_state = done.1 }))
  handle_reason k msr_read w = pure (resumes [] (with_vcpu (handle_msr_access true w.vcpu) w))
  handle_reason k msr_write w = pure (resumes [] (with_vcpu (handle_msr_access false w.vcpu) w))
  handle_reason k monitor_trap_flag w = do
    v ← handle_monitor_trap w.vcpu
    pure (resumes [] (with_vcpu v w))
  handle_reason k gdtr_or_idtr_access w =
      pure (of_memory (handle_gdtr_or_idtr_access w.vcpu w.memory) w)
  handle_reason k ldtr_or_tr_access w =
      pure (of_memory (handle_ldtr_or_tr_access w.vcpu w.memory) w)
  handle_reason k ept_violation w = do
    v ← vmm_handle_ept_violation k.env w.vcpu
    pure (resumes [] (with_vcpu v w))
  handle_reason k ept_misconfig w = pure stops
  handle_reason k vmcall w = do
    done ← handle_vmcall k.bus k.store w.vcpu w.found
    pure (resumes [] (record w { vcpu = done.0; found = done.1 }))
  handle_reason k vmx_instruction w = pure (resumes [] (with_vcpu (handle_vmx w.vcpu) w))
  handle_reason k rdtscp w = pure (resumes [] (with_vcpu (handle_rdtscp k.tsc k.tsc_aux w.vcpu) w))
  handle_reason k Reason.xsetbv w =
      let done = handle_xsetbv w.vcpu in
      pure (resumes (xsetbv done.0.0 done.0.1 ∷ []) (with_vcpu done.1 w))
  handle_reason k other w = pure stops

  -- `VmmpHandleVmExit`; 0x4402 is `kVmExitReason`, whose low 16 bits are the reason.
  unfoldable pub handle_vm_exit : Machine S M → World S M → Ept → Run (Verdict S M)
  unfolding handle_reason exit_reason
  handle_vm_exit k w = handle_reason k (exit_reason (field 0 16 (vm_read 0x4402 w.vcpu))) w

  -- `VmmVmExitHandler`: where the guest does not continue, the mappings cached for it are
  -- invalidated before the VMM is left.
  unfoldable pub vmm_vm_exit_handler :
      Machine S M → (cr8 : ℕ) → World S M → Ept → Run (Bool × Verdict S M)
  unfolding handle_vm_exit capture
  vmm_vm_exit_handler k cr8 w = do
    verdict ← handle_vm_exit k (with_vcpu (capture cr8 w.vcpu) w)
    pure (elim verdict [
      | stops ↦ (false, stops)
      | resumes told w' ↦
          if w'.vcpu.vm_continue
          then (true, resumes told w')
          else (false, resumes (told ++ (invept_global ∷ invvpid_all ∷ [])) w')
    ])
