-- ===== src/Vm/Lifecycle/Stop.antt =====
-- What the loops over the processors leave.
use device_mon.Prelude.{
  ℕ, zero, suc, ◌+◌, ◌≤◌, ◌<◌, ◌≡◌, refl, sym, ap, ◌∙◌, ◌⊎◌, inl, inr, Bool, true, false, Option,
  none, some, arith, test_of_ne, ltb, Bool-cases, update,
}
use device_mon.Vm.Lifecycle.{
  ProcessorData, System, Vmx, ◌>>=◌, vmp_start_vm, vmp_stop_vm, for_each_processor,
}
use device_mon.Vm.Lifecycle.Count.{
  full_data, Loaded, Settled, bind-some, free_processor_data-Settled,
}
use device_mon.Vm.Lifecycle.Start.{Ready, virtualized, not_begun, given_up, vmp_start_vm-Started}

-- The processors from `i` up to `k` run under the VMM, and no other.
pub record Running (i k : ℕ) (vmms : ℕ → Option ProcessorData) : Type 0 where
  pub inside : (j : ℕ) → i ≤ j → j < k → vmms j ≡ some full_data
  pub outside : (j : ℕ) → (j < i) ⊎ (k ≤ j) → vmms j ≡ none

Running-more :
    (k : ℕ) (vmms vmms' : ℕ → Option ProcessorData)
    → Running 0 k vmms
    → vmms' ≡ update vmms k (some full_data)
    → Running 0 (suc k) vmms'
Running-more k vmms vmms' r e = record {
  inside = λ j from below. ap (λ v. v j) e ∙ ground (arith, r.inside j);
  outside = λ j out.
      ap (λ v. v j) e ∙ rw (test_of_ne j k (omega arith)) (r.outside j (inr (omega arith)));
}

Running-less :
    (i k : ℕ) (vmms : ℕ → Option ProcessorData)
    → Running i k vmms
    → i < k
    → Running (i + 1) k (update vmms i none)
Running-less i k vmms r below = record {
  inside = λ j from under. rw (test_of_ne j i (omega arith)) (r.inside j (omega arith) under);
  outside = λ j out. ground (arith, r.outside j);
}

-- How the loop over VmpStartVm ends.
pub data AllStarted (n : ℕ) : Option (Bool × System) → Type 0 where
  all : {s' : System} → Ready n s' → Running 0 n s'.vmms → AllStarted n (some (true, s'))
  part :
      {s' : System} (k : ℕ)
      → k < n
      → Running 0 k s'.vmms
      → Ready k s' ⊎ Settled k s'
      → AllStarted n (some (false, s'))

module _ (vmx : Vmx) (n : ℕ) where
  pub start-AllStarted :
      (left i : ℕ) (s : System)
      → i + left ≡ n
      → Ready i s
      → Running 0 i s.vmms
      → AllStarted n (for_each_processor (vmp_start_vm vmx) i left s)
  unfolding for_each_processor
  start-AllStarted zero i s total ready running =
      let same : i ≡ n = omega arith in all (rw (sym same) ready) (rw (sym same) running)
  start-AllStarted (suc left) i s total ready running =
      let one : suc i ≡ i + 1 = omega arith in
      elim (vmp_start_vm-Started i i vmx s ready)
        as (λ run st. AllStarted n (
          run >>= λ done. elim done.0 [
            | true ↦ for_each_processor (vmp_start_vm vmx) (i + 1) left done.1
            | false ↦ some (false, done.1)
          ])) [
            | virtualized {s'} ready' more ↦
                start-AllStarted left (i + 1) s' (omega arith) (rw (sym one) ready')
                  (rw (sym one) (Running-more i s.vmms s'.vmms running more))
            | not_begun {s'} ready' same ↦ part i (omega arith) (rw same running) (inl ready')
            | given_up {s'} settled same ↦ part i (omega arith) (rw same running) (inr settled)
          ]

-- A virtualized processor with its data, beside `r` others.
Ready-Loaded : (r : ℕ) (s : System) → Ready (suc r) s → Loaded r full_data s
Ready-Loaded r s h = record {
  count = h.count;
  shared = h.holds.shared;
  processors = h.holds.processors;
  epts = h.holds.epts;
  stacks = h.holds.stacks;
  vmcss = h.holds.vmcss;
  vmxons = h.holds.vmxons;
  owner = refl;
}

Settled-Ready : (r : ℕ) (s : System) → Settled (suc r) s → Ready (suc r) s
Settled-Ready r s h = record { count = h.count; holds = h.holds }

-- How the loop over VmpStopVm ends where `r` processors were left to be stopped.
pub data AllStopped (r : ℕ) (s : System) : Option (Bool × System) → Type 0 where
  emptied :
      {b : Bool} {s' : System} → Settled 0 s' → Running 0 0 s'.vmms → AllStopped r s (some (b, s'))
  untouched : {b : Bool} → r ≡ 0 → AllStopped r s (some (b, s))

vmp_stop_vm-none : (i : ℕ) (s : System) → s.vmms i ≡ none → vmp_stop_vm i s ≡ some (false, s)
unfolding vmp_stop_vm
vmp_stop_vm-none i s gone = rw (gone, vmp_stop_vm) refl

still_stopped :
    (r : ℕ) (s s' : System) (run : Option (Bool × System))
    → Settled r s'
    → (r ≡ 0 → Running 0 0 s'.vmms)
    → AllStopped r s' run
    → AllStopped (suc r) s run
still_stopped r s s' _ settled none_left (emptied settled' running) = emptied settled' running
still_stopped r s s' _ settled none_left (untouched zero_left) =
    emptied (rw (sym zero_left) settled) (none_left zero_left)

vmp_stop_vm-Settled :
    (r i : ℕ) (s : System)
    → Ready (suc r) s
    → s.vmms i ≡ some full_data
    → (s' : System) × (vmp_stop_vm i s ≡ some (true, s'))
      × Settled r s'
      × (s'.vmms ≡ update s.vmms i none)
unfolding vmp_stop_vm
vmp_stop_vm-Settled r i s ready there =
    let s₁ = record s { vmms = update s.vmms i none } in
    let (s', run, settled, same) =
      free_processor_data-Settled r full_data s₁
        (Ready-Loaded r s₁ (record { count = ready.count; holds = ready.holds })) in
    (s', rw (there, vmp_stop_vm) (bind-some _ run), settled, same)

nothing_left :
    (i k : ℕ) (vmms : ℕ → Option ProcessorData) → k ≤ i → Running i k vmms → Running 0 0 vmms
nothing_left i k vmms over running = record {
  inside = λ j from below. absurd (omega arith);
  outside = λ j out. running.outside j (elim (Bool-cases (ltb j i)) [
    | inl before ↦ inl (ground arith)
    | inr after ↦ inr (ground arith)
  ]);
}

module _ (n k : ℕ) (low : k ≤ n) where
  pub stop-AllStopped :
      (left i r : ℕ) (s : System)
      → i + left ≡ n
      → i + r ≡ k
      → Ready r s ⊎ Settled r s
      → Running i k s.vmms
      → AllStopped r s (for_each_processor vmp_stop_vm i left s)
  unfolding for_each_processor
  stop-AllStopped zero i r s total rest ready running = untouched (omega arith)
  stop-AllStopped (suc left) i zero s total rest ready running =
      let gone = running.outside i (inr (omega arith)) in
      let failed : vmp_stop_vm i s ≡ some (false, s) = vmp_stop_vm-none i s gone in
      rw (failed, for_each_processor, ◌>>=◌) (untouched refl)
  stop-AllStopped (suc left) i (suc r) s total rest ready running =
      let ready' : Ready (suc r) s = elim ready [ inl is ↦ is | inr is ↦ Settled-Ready r s is ] in
      let here = running.inside i (omega arith) (omega arith) in
      let (s', run, settled, same) = vmp_stop_vm-Settled r i s ready' here in
      let less : Running (i + 1) k s'.vmms =
        rw same (Running-less i k s.vmms running (omega arith)) in
      rw (run, for_each_processor, ◌>>=◌)
        (still_stopped r s s' _ settled (λ none. nothing_left (i + 1) k s'.vmms (omega arith) less)
          (stop-AllStopped left (i + 1) r s' (omega arith) (omega arith) (inr settled) less))
