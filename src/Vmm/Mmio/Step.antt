-- ===== src/Vmm/Mmio/Step.antt =====
-- An access to a monitored page, from the EPT violation to the end of the step.
use device_mon.Prelude.{
  ℕ, ◌%◌, ◌^◌, ◌<◌, ◌≡◌, refl, sym, ap, ◌∙◌, ◌≢◌, inl, inr, arith, Bool, true, Option, none, some,
  field, set_field,
}
use device_mon.Ept.Entry.{EptCommonEntry}
use device_mon.Ept.Tables.{Pointer, Ept, Run, ok, ◌>>=◌}
use device_mon.Ept.Tables.Walk.{page, locate, translation}
use device_mon.Ept.Tables.Inv.{Shape, Inv}
use device_mon.Ept.Tables.Update.{Updated, Found}
use device_mon.Monitor.Pages.{with_access}
use device_mon.Monitor.Pages.Trap.{lookup-locate, is_present-translation, set_access-Updated}
use device_mon.Devices.Callbacks.{is_monitored_device}
use device_mon.Devices.Callbacks.Inert.{execute_callback-inert}
use device_mon.Vmm.State.{Vcpu, vm_read}
use device_mon.Vmm.Mmio.{
  Environment, mmio_access, set_monitor_trap_flag, open_page, run_callback, handle_mmio,
  handle_monitor_trap,
}

-- After the step: the page of `pa`, which `e` translated in `s₀`, is closed, and everything else is
-- as in `s₀`.
pub data Closed (s₀ : Ept) (h : Shape) (pa : ℕ) (e : EptCommonEntry) : Run Vcpu → Type 0 where
  closed :
      {v : Vcpu} {s : Ept}
      → Inv s h
      → ((pa' : ℕ) → page pa' ≡ page pa → translation pa' s ≡ some (with_access 0 0 1 e))
      → ((pa' : ℕ) → page pa' ≢ page pa → translation pa' s ≡ translation pa' s₀)
      → field 27 1 (vm_read 0x4002 v) ≡ 0
      → v.last_fault_entry ≡ none
      → Closed s₀ h pa e (ok v s)

-- After the violation: the page is open, the guest will exit after one instruction, which is the one
-- that made the access, and then the page is closed.
pub data Stepped (v₀ : Vcpu) (s₀ : Ept) (h : Shape) (pa : ℕ) : Run (Bool × Vcpu) → Type 0 where
  stepped :
      {v : Vcpu} {s : Ept} (e : EptCommonEntry)
      → translation pa s₀ ≡ some e
      → Inv s h
      → ((pa' : ℕ) → page pa' ≡ page pa → translation pa' s ≡ some (with_access 1 1 1 e))
      → ((pa' : ℕ) → page pa' ≢ page pa → translation pa' s ≡ translation pa' s₀)
      → field 27 1 (vm_read 0x4002 v) ≡ 1
      → vm_read 0x681e v ≡ vm_read 0x681e v₀
      → v.gp_regs ≡ v₀.gp_regs
      → Closed s₀ h pa e (handle_monitor_trap v s)
      → Stepped v₀ s₀ h pa (ok (true, v) s)

bit_27 : (b x : ℕ) → b < 2 → field 27 1 (set_field 27 1 b x) ≡ b
bit_27 b x small = omega arith

close_entry : Option EptCommonEntry → Option EptCommonEntry
close_entry none = none
close_entry (some e) = some (with_access 0 0 1 e)

module _ (s₀ : Ept) (h : Shape) (pa : ℕ) (e : EptCommonEntry) (p : Pointer) where
  handle_monitor_trap-Closed :
      (v : Vcpu) (s : Ept)
      → Updated s₀ h pa (with_access 1 1 1 e) s
      → locate 4 s.ept_pml4 pa s.tables ≡ some p
      → v.last_fault_entry ≡ some p
      → Closed s₀ h pa e (handle_monitor_trap v s)
  unfolding handle_monitor_trap set_monitor_trap_flag close_entry
  handle_monitor_trap-Closed v s up here last =
      let full = up.at pa refl in
      elim (is_present-translation s h pa up.inv (some p) here) [
        | inl (absent, void) ↦ let clash : none ≡ some (with_access 1 1 1 e) = sym void ∙ full in cc
        | inr (q, e', named, there, is, found) ↦
            let (s', run, down) = set_access-Updated s h pa up.inv 0 0 1 q e' found (omega arith) in
            let same : some (with_access 0 0 1 e') ≡ some (with_access 0 0 1 e) =
              ap close_entry (sym is ∙ full) in
            rw (last ∙ named, handle_monitor_trap)
              (rw (run, ◌>>=◌)
                (closed down.inv (λ pa' hit. down.at pa' hit ∙ same)
                  (λ pa' miss. down.other pa' miss ∙ up.other pa' miss)
                  (bit_27 0 (vm_read 0x4002 v) (omega arith)) refl))
      ]

module _ (env : Environment) (v₀ : Vcpu) (s₀ : Ept) (h : Shape) (inv : Inv s₀ h) where
  run_callback-Stepped :
      (p : Pointer) (e : EptCommonEntry)
      → locate 4 s₀.ept_pml4 (vm_read 0x2400 v₀) s₀.tables ≡ some p
      → translation (vm_read 0x2400 v₀) s₀ ≡ some e
      → Found s₀ h (vm_read 0x2400 v₀) p e
      → Stepped v₀ s₀ h (vm_read 0x2400 v₀) (run_callback env (some p) v₀ s₀)
  unfolding run_callback open_page set_monitor_trap_flag
  run_callback-Stepped p e here is found =
      let pa : ℕ = vm_read 0x2400 v₀ in
      let inert =
        execute_callback-inert env.devices (mmio_access env v₀) (v₀.gp_regs, v₀.records) in
      let (s, run, up) = set_access-Updated s₀ h pa inv 1 1 1 p e found (omega arith) in
      rw (inert.0, run_callback)
        (rw (run, open_page, ◌>>=◌)
          (stepped e is up.inv up.at up.other (bit_27 1 (vm_read 0x4002 v₀) (omega arith)) refl
            inert.1 (handle_monitor_trap-Closed s₀ h pa e p _ s up (up.place ∙ here) refl)))

  -- In a well-formed state, an EPT violation at a monitored address that is mapped opens the page and
  -- sets the monitor trap flag; the registers and the instruction pointer are as they were. The exit
  -- after the next instruction finds the entry again, makes the page inaccessible for reads and
  -- writes, clears the flag and leaves every other page translated as before the violation.
  pub handle_mmio-Stepped :
      is_monitored_device env.devices (vm_read 0x2400 v₀ % 2 ^ 32) ≡ true
      → translation (vm_read 0x2400 v₀) s₀ ≢ none
      → Stepped v₀ s₀ h (vm_read 0x2400 v₀) (handle_mmio env v₀ s₀)
  unfolding handle_mmio
  handle_mmio-Stepped monitored mapped =
      let pa : ℕ = vm_read 0x2400 v₀ in
      let r : Option Pointer = locate 4 s₀.ept_pml4 pa s₀.tables in
      elim (is_present-translation s₀ h pa inv r refl) [
        | inl (absent, void) ↦ absurd (mapped void)
        | inr (p, e, here, there, is, found) ↦
            rw (monitored, handle_mmio)
              (rw (lookup-locate s₀ h pa inv, ◌>>=◌)
                (rw (there, ◌>>=◌) (rw here (run_callback-Stepped p e here is found))))
      ]
