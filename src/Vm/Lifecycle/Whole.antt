-- ===== src/Vm/Lifecycle/Whole.antt =====
-- The states after `VmInitialization` and `VmTermination` (DeviceMon/vm.cpp).
use device_mon.Prelude.{
  ℕ, ◌≤◌, ◌<◌, ◌≡◌, refl, sym, ◌⊎◌, inl, inr, Bool, true, false, ◌&&◌, ◌||◌, not, Bool-cases,
  Option, some, arith,
}
use device_mon.Vm.Lifecycle.{
  System, Vmx, ◌>>=◌, initialize_shared_data, for_each_processor, vmp_start_vm, vmp_stop_vm,
  stop_all, virtualize, vm_initialization, vm_termination,
}
use device_mon.Vm.Lifecycle.Count.{Holds, Settled}
use device_mon.Vm.Lifecycle.Start.{Ready}
use device_mon.Vm.Lifecycle.Stop.{
  Running, AllStarted, all, part, start-AllStarted, AllStopped, emptied, untouched, stop-AllStopped,
}
use device_mon.Vm.Lifecycle.Shared.{Empty, Shared, failed, made, shared-Shared}

-- No processor runs under the VMM, and of the driver's memory the shared data at most is live.
pub record Left (s : System) : Type 0 where
  pub holds : Holds 0 0 s.live ⊎ Holds 0 1 s.live
  pub running : Running 0 0 s.vmms

of_stopped :
    (k : ℕ) (s : System) (run : Option (Bool × System))
    → Ready k s ⊎ Settled k s
    → Running 0 k s.vmms
    → AllStopped k s run
    → (s' : System) × ((run >>= λ done. some done.1) ≡ some s')
      × Left s'
      × (0 < k → Holds 0 0 s'.live)
of_stopped k s _ ready running (emptied {s'} settled none_left) = (
  s',
  refl,
  record { holds = inl settled.holds; running = none_left },
  λ some_left. settled.holds,
)
of_stopped k s _ ready running (untouched zero_left) =
    let ready₀ : Ready 0 s ⊎ Settled 0 s = rw (sym zero_left) ready in
    let running₀ : Running 0 0 s.vmms = (rw zero_left at running) in
    (
      s,
      refl,
      record {
        holds = elim ready₀ [ inl h ↦ inr h.holds | inr h ↦ inl h.holds ];
        running = running₀;
      },
      λ some_left. absurd (omega arith),
    )

stop_all-Left :
    (n k : ℕ) (s : System)
    → k ≤ n
    → Ready k s ⊎ Settled k s
    → Running 0 k s.vmms
    → (s' : System) × (stop_all n s ≡ some s') × Left s' × (0 < k → Holds 0 0 s'.live)
unfolding stop_all
stop_all-Left n k s low ready running =
    of_stopped k s (for_each_processor vmp_stop_vm 0 n s) ready running
      (stop-AllStopped n k low n 0 k s (omega arith) (omega arith) ready running)

-- How VmInitialization ends: with the `n` processors virtualized, in a state that VmTermination
-- leaves with nothing live, or with none virtualized.
pub data Initialized (n : ℕ) : Option (Bool × System) → Type 0 where
  succeeded :
      {s' s'' : System}
      → Ready n s'
      → Running 0 n s'.vmms
      → vm_termination n s' ≡ some s''
      → Empty s''
      → Initialized n (some (true, s'))
  cancelled : {s' : System} → Left s' → Initialized n (some (false, s'))

module _ (vmx : Vmx) (n : ℕ) (some_processor : 0 < n) (monitor : Bool) where
  of_started :
      (run : Option (Bool × System))
      → AllStarted n run
      → Initialized n (
          run >>= λ started. elim (started.0 && monitor) [
            | true ↦ some (true, started.1)
            | false ↦ (stop_all n started.1 >>= λ s'. some (false, s'))
          ])
  unfolding vm_termination
  of_started _ (part {s'} k low running ready) =
      let (s'', run, left, clean) = stop_all-Left n k s' (omega arith) ready running in
      rw (run, ◌>>=◌) (cancelled left)
  of_started _ (all {s'} ready running) =
      let (s'', run, left, clean) = stop_all-Left n n s' (omega arith) (inl ready) running in
      elim monitor
        as (λ monitor. Initialized n (elim (true && monitor) [
          | true ↦ some (true, s')
          | false ↦ (stop_all n s' >>= λ s'. some (false, s'))
        ])) [
          | true ↦
              succeeded ready running run
                (record { holds = clean some_processor; running = left.running })
          | false ↦ rw (run, ◌>>=◌) (cancelled left)
        ]

  of_shared :
      (run : Option (Bool × System))
      → Shared run
      → Initialized n (
          run >>= λ shared. elim shared.0 [
            | false ↦ some (false, shared.1)
            | true ↦
                (for_each_processor (vmp_start_vm vmx) 0 n shared.1 >>= λ started.
                elim (started.0 && monitor) [
                  | true ↦ some (true, started.1)
                  | false ↦ (stop_all n started.1 >>= λ s'. some (false, s'))
                ])
          ])
  of_shared _ (failed empty) =
      cancelled (record { holds = inl empty.holds; running = empty.running })
  of_shared _ (made {s'} ready running) =
      of_started (for_each_processor (vmp_start_vm vmx) 0 n s')
        (start-AllStarted vmx n n 0 s' (omega arith) ready running)

  -- From a state with nothing live, for at least one processor, whatever the two checks, the
  -- allocations, the processors and `DmEnableMonitor` answer, `VmInitialization` never frees a
  -- block that is not live. If it succeeds, all processors run under the VMM, each with its own
  -- data, the reference count of the shared data is their number, and `VmTermination` leaves
  -- nothing live and no processor under the VMM. If it fails, no processor runs under the VMM,
  -- and nothing is live but at most the shared data with its bitmaps.
  pub vm_initialization-Initialized :
      (installed available : Bool) (s : System)
      → Empty s
      → Initialized n (vm_initialization vmx n installed available monitor s)
  unfolding vm_initialization virtualize
  vm_initialization-Initialized installed available s empty =
      elim (Bool-cases (installed || not available)) [
        | inl refuses ↦
            rw refuses (cancelled (record { holds = inl empty.holds; running = empty.running }))
        | inr goes_on ↦ rw goes_on (of_shared (initialize_shared_data s) (shared-Shared s empty))
      ]
