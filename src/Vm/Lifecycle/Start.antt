-- ===== src/Vm/Lifecycle/Start.antt =====
-- The paths of `VmpStartVm` and `VmpInitializeVm` (DeviceMon/vm.cpp).
use device_mon.Prelude.{
  ℕ, suc, ◌+◌, ◌≡◌, refl, inl, inr, Bool-cases, Bool, true, false, ◌&&◌, Option, some, List, arith,
  if◌then◌else◌, update,
}
use device_mon.Vm.Lifecycle.{
  ProcessorData, System, Vmx, give_up, launch, allocate_vmxon, allocate_vmcs, allocate_stack,
  allocate_ept, new_data, vmp_start_vm,
}
use device_mon.Vm.Lifecycle.Count.{full_data, Holds, Loaded, Settled, free_processor_data-Settled}
use device_mon.Vm.Lifecycle.Allocate.{allocate-Allocated, refused, got}

-- The data as it grows.
abbrev pub with_ept : ProcessorData
with_ept = record new_data { ept_data = true }

abbrev pub with_stack : ProcessorData
with_stack = record with_ept { vmm_stack_limit = true }

abbrev pub with_vmcs : ProcessorData
with_vmcs = record with_stack { vmcs_region = true }

-- `k` processors are virtualized, and the shared data is there.
pub record Ready (k : ℕ) (s : System) : Type 0 where
  pub count : s.reference_count ≡ k
  pub holds : Holds k 1 s.live

-- How a start ends for the processor `i`, beside `k` others.
pub data Started (k i : ℕ) (vmms : ℕ → Option ProcessorData) : Option (Bool × System) → Type 0 where
  virtualized :
      {s' : System}
      → Ready (suc k) s'
      → s'.vmms ≡ update vmms i (some full_data)
      → Started k i vmms (some (true, s'))
  not_begun : {s' : System} → Ready k s' → s'.vmms ≡ vmms → Started k i vmms (some (false, s'))
  given_up : {s' : System} → Settled k s' → s'.vmms ≡ vmms → Started k i vmms (some (false, s'))

module _ (k i : ℕ) where
  with_pool :
      (pd : ProcessorData) (s : System) (pool : List Bool)
      → Loaded k pd s
      → Loaded k pd (record s { pool = pool })
  with_pool pd s pool h = record {
    count = h.count;
    shared = h.shared;
    processors = h.processors;
    epts = h.epts;
    stacks = h.stacks;
    vmcss = h.vmcss;
    vmxons = h.vmxons;
    owner = h.owner;
  }

  give_up-Started :
      (pd : ProcessorData) (s : System) → Loaded k pd s → Started k i s.vmms (give_up pd s)
  unfolding give_up
  give_up-Started pd s h =
      let (s', run, settled, same) = free_processor_data-Settled k pd s h in
      rw run (given_up settled same)

  launch-Started :
      (vmx : Vmx) (s : System)
      → Loaded k full_data s
      → Started k i s.vmms (launch vmx i full_data s)
  unfolding launch
  launch-Started vmx s h =
      elim (Bool-cases (vmx.enters i && (vmx.initializes i && (vmx.sets_up i && vmx.launches i)))) [
        | inl launched ↦ rw launched (
            virtualized
              (record {
                count = h.count;
                holds = record {
                  shared = h.shared;
                  processors = h.processors;
                  epts = h.epts;
                  stacks = h.stacks;
                  vmcss = h.vmcss;
                  vmxons = h.vmxons;
                };
              })
              refl)
        | inr failed ↦ rw failed (give_up-Started full_data s h)
      ]

  vmxon_loaded :
      (s : System) (pool : List Bool)
      → Loaded k with_vmcs s
      → Loaded k full_data (record s { pool = pool; live = update s.live 7 (s.live 7 + 1) })
  vmxon_loaded s pool h = record {
    count = h.count;
    shared = record {
      shared_data = h.shared.shared_data;
      msr_bitmap = h.shared.msr_bitmap;
      io_bitmaps = h.shared.io_bitmaps;
    };
    processors = h.processors;
    epts = h.epts;
    stacks = h.stacks;
    vmcss = h.vmcss;
    vmxons = omega (arith, h.vmxons);
    owner = refl;
  }

  allocate_vmxon-Started :
      (vmx : Vmx) (s : System)
      → Loaded k with_vmcs s
      → Started k i s.vmms (allocate_vmxon vmx i with_vmcs s)
  unfolding allocate_vmxon
  allocate_vmxon-Started vmx s h =
      elim (allocate-Allocated 7 s)
        as (λ r a.
          Started k i s.vmms (if r.0 then launch vmx i full_data r.1 else give_up with_vmcs r.1)) [
            | refused {pool} ↦
                give_up-Started with_vmcs (record s { pool = pool }) (with_pool with_vmcs s pool h)
            | got {pool} ↦ launch-Started vmx _ (vmxon_loaded s pool h)
          ]

  vmcs_loaded :
      (s : System) (pool : List Bool)
      → Loaded k with_stack s
      → Loaded k with_vmcs (record s { pool = pool; live = update s.live 6 (s.live 6 + 1) })
  vmcs_loaded s pool h = record {
    count = h.count;
    shared = record {
      shared_data = h.shared.shared_data;
      msr_bitmap = h.shared.msr_bitmap;
      io_bitmaps = h.shared.io_bitmaps;
    };
    processors = h.processors;
    epts = h.epts;
    stacks = h.stacks;
    vmcss = omega (arith, h.vmcss);
    vmxons = h.vmxons;
    owner = refl;
  }

  allocate_vmcs-Started :
      (vmx : Vmx) (s : System)
      → Loaded k with_stack s
      → Started k i s.vmms (allocate_vmcs vmx i with_stack s)
  unfolding allocate_vmcs
  allocate_vmcs-Started vmx s h =
      elim (allocate-Allocated 6 s)
        as (λ r a.
          Started k i s.vmms
            (if r.0 then allocate_vmxon vmx i with_vmcs r.1 else give_up with_stack r.1)) [
              | refused {pool} ↦
                  give_up-Started with_stack (record s { pool = pool })
                    (with_pool with_stack s pool h)
              | got {pool} ↦ allocate_vmxon-Started vmx _ (vmcs_loaded s pool h)
            ]

  stack_loaded :
      (s : System) (pool : List Bool)
      → Loaded k with_ept s
      → Loaded k with_stack (record s { pool = pool; live = update s.live 5 (s.live 5 + 1) })
  stack_loaded s pool h = record {
    count = h.count;
    shared = record {
      shared_data = h.shared.shared_data;
      msr_bitmap = h.shared.msr_bitmap;
      io_bitmaps = h.shared.io_bitmaps;
    };
    processors = h.processors;
    epts = h.epts;
    stacks = omega (arith, h.stacks);
    vmcss = h.vmcss;
    vmxons = h.vmxons;
    owner = refl;
  }

  allocate_stack-Started :
      (vmx : Vmx) (s : System)
      → Loaded k with_ept s
      → Started k i s.vmms (allocate_stack vmx i with_ept s)
  unfolding allocate_stack
  allocate_stack-Started vmx s h =
      elim (allocate-Allocated 5 s)
        as (λ r a.
          Started k i s.vmms
            (if r.0 then allocate_vmcs vmx i with_stack r.1 else give_up with_ept r.1)) [
              | refused {pool} ↦
                  give_up-Started with_ept (record s { pool = pool }) (with_pool with_ept s pool h)
              | got {pool} ↦ allocate_vmcs-Started vmx _ (stack_loaded s pool h)
            ]

  ept_loaded :
      (s : System) (pool : List Bool)
      → Loaded k new_data s
      → Loaded k with_ept (record s { pool = pool; live = update s.live 4 (s.live 4 + 1) })
  ept_loaded s pool h = record {
    count = h.count;
    shared = record {
      shared_data = h.shared.shared_data;
      msr_bitmap = h.shared.msr_bitmap;
      io_bitmaps = h.shared.io_bitmaps;
    };
    processors = h.processors;
    epts = omega (arith, h.epts);
    stacks = h.stacks;
    vmcss = h.vmcss;
    vmxons = h.vmxons;
    owner = refl;
  }

  allocate_ept-Started :
      (vmx : Vmx) (s : System)
      → Loaded k new_data s
      → Started k i s.vmms (allocate_ept vmx i new_data s)
  unfolding allocate_ept
  allocate_ept-Started vmx s h =
      elim (allocate-Allocated 4 s)
        as (λ r a.
          Started k i s.vmms
            (if r.0 then allocate_stack vmx i with_ept r.1 else give_up new_data r.1)) [
              | refused {pool} ↦
                  give_up-Started new_data (record s { pool = pool }) (with_pool new_data s pool h)
              | got {pool} ↦ allocate_stack-Started vmx _ (ept_loaded s pool h)
            ]

  processor_loaded :
      (s : System) (pool : List Bool)
      → Ready k s
      → Loaded k new_data (record s {
        pool = pool;
        live = update s.live 3 (s.live 3 + 1);
        reference_count = s.reference_count + 1;
      })
  processor_loaded s pool h = record {
    count = omega (arith, h.count);
    shared = record {
      shared_data = h.holds.shared.shared_data;
      msr_bitmap = h.holds.shared.msr_bitmap;
      io_bitmaps = h.holds.shared.io_bitmaps;
    };
    processors = omega (arith, h.holds.processors);
    epts = h.holds.epts;
    stacks = h.holds.stacks;
    vmcss = h.holds.vmcss;
    vmxons = h.holds.vmxons;
    owner = refl;
  }

  pub vmp_start_vm-Started :
      (vmx : Vmx) (s : System) → Ready k s → Started k i s.vmms (vmp_start_vm vmx i s)
  unfolding vmp_start_vm
  vmp_start_vm-Started vmx s h =
      elim (allocate-Allocated 3 s)
        as (λ r a. Started k i s.vmms (
          if r.0
          then allocate_ept vmx i new_data
              (record r.1 { reference_count = r.1.reference_count + 1 })
          else some (false, r.1))) [
            | refused {pool} ↦ not_begun (record { count = h.count; holds = h.holds }) refl
            | got {pool} ↦ allocate_ept-Started vmx _ (processor_loaded s pool h)
          ]
