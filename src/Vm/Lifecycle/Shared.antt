-- ===== src/Vm/Lifecycle/Shared.antt =====
-- The outcomes of `VmpInitializeSharedData` (DeviceMon/vm.cpp).
use device_mon.Prelude.{
  ℕ, ◌+◌, ◌≡◌, refl, Bool, true, false, Option, some, List, arith, if◌then◌else◌, update,
}
use device_mon.Vm.Lifecycle.{
  System, ◌>>=◌, free, initialize_io_bitmaps, initialize_msr_bitmap, initialize_shared_data,
}
use device_mon.Vm.Lifecycle.Count.{Holds, free-ok}
use device_mon.Vm.Lifecycle.Allocate.{allocate-Allocated, refused, got}
use device_mon.Vm.Lifecycle.Start.{Ready}
use device_mon.Vm.Lifecycle.Stop.{Running}

-- Nothing of the driver's is live, and no processor runs under the VMM.
pub record Empty (s : System) : Type 0 where
  pub holds : Holds 0 0 s.live
  pub running : Running 0 0 s.vmms

-- How VmpInitializeSharedData ends.
pub data Shared : Option (Bool × System) → Type 0 where
  made : {s' : System} → Ready 0 s' → Running 0 0 s'.vmms → Shared (some (true, s'))
  failed : {s' : System} → Empty s' → Shared (some (false, s'))

-- What is live of the shared data while it is made; of the rest nothing is.
record Making (a b : ℕ) (s : System) : Type 0 where
  count : s.reference_count ≡ 0
  shared_data : s.live 0 ≡ a
  msr_bitmap : s.live 1 ≡ b
  io_bitmaps : s.live 2 ≡ 0
  processors : s.live 3 ≡ 0
  epts : s.live 4 ≡ 0
  stacks : s.live 5 ≡ 0
  vmcss : s.live 6 ≡ 0
  vmxons : s.live 7 ≡ 0
  running : Running 0 0 s.vmms

free_shared : (s : System) → Making 1 0 s → (s' : System) × (free 0 s ≡ some s') × Empty s'
free_shared s h = (
  _,
  free-ok 0 0 s h.shared_data,
  record {
    holds = record {
      shared = record { shared_data = refl; msr_bitmap = h.msr_bitmap; io_bitmaps = h.io_bitmaps };
      processors = h.processors;
      epts = h.epts;
      stacks = h.stacks;
      vmcss = h.vmcss;
      vmxons = h.vmxons;
    };
    running = h.running;
  },
)

free_bitmap : (s : System) → Making 1 1 s → (s' : System) × (free 1 s ≡ some s') × Making 1 0 s'
free_bitmap s h = (
  _,
  free-ok 1 0 s h.msr_bitmap,
  record {
    count = h.count;
    shared_data = h.shared_data;
    msr_bitmap = refl;
    io_bitmaps = h.io_bitmaps;
    processors = h.processors;
    epts = h.epts;
    stacks = h.stacks;
    vmcss = h.vmcss;
    vmxons = h.vmxons;
    running = h.running;
  },
)

with_pool :
    (a b : ℕ) (s : System) (pool : List Bool) → Making a b s → Making a b (record s { pool = pool })
with_pool a b s pool h = record {
  count = h.count;
  shared_data = h.shared_data;
  msr_bitmap = h.msr_bitmap;
  io_bitmaps = h.io_bitmaps;
  processors = h.processors;
  epts = h.epts;
  stacks = h.stacks;
  vmcss = h.vmcss;
  vmxons = h.vmxons;
  running = h.running;
}

io_bitmaps-Shared : (s : System) → Making 1 1 s → Shared (initialize_io_bitmaps s)
unfolding initialize_io_bitmaps
io_bitmaps-Shared s h =
    elim (allocate-Allocated 2 s)
      as (λ r a. Shared (
        if r.0
        then some (true, r.1)
        else (free 1 r.1 >>= λ s₁. free 0 s₁ >>= λ s₂. some (false, s₂)))) [
          | refused {pool} ↦
              let (s₁, run, h₁) = free_bitmap (record s { pool = pool }) (with_pool 1 1 s pool h) in
              let (s₂, rest, h₂) = free_shared s₁ h₁ in
              rw (run, ◌>>=◌) (rw (rest, ◌>>=◌) (failed h₂))
          | got {pool} ↦
              made
                (record {
                  count = h.count;
                  holds = record {
                    shared = record {
                      shared_data = h.shared_data;
                      msr_bitmap = h.msr_bitmap;
                      io_bitmaps = omega (arith, h.io_bitmaps);
                    };
                    processors = h.processors;
                    epts = h.epts;
                    stacks = h.stacks;
                    vmcss = h.vmcss;
                    vmxons = h.vmxons;
                  };
                })
                h.running
        ]

msr_bitmap-Shared : (s : System) → Making 1 0 s → Shared (initialize_msr_bitmap s)
unfolding initialize_msr_bitmap
msr_bitmap-Shared s h =
    elim (allocate-Allocated 1 s)
      as (λ r a.
        Shared
          (if r.0 then initialize_io_bitmaps r.1 else (free 0 r.1 >>= λ s₁. some (false, s₁)))) [
            | refused {pool} ↦
                let (s₁, run, h₁) =
                  free_shared (record s { pool = pool }) (with_pool 1 0 s pool h) in
                rw (run, ◌>>=◌) (failed h₁)
            | got {pool} ↦
                io_bitmaps-Shared (record s { pool = pool; live = update s.live 1 (s.live 1 + 1) })
                  (record {
                    count = h.count;
                    shared_data = h.shared_data;
                    msr_bitmap = omega (arith, h.msr_bitmap);
                    io_bitmaps = h.io_bitmaps;
                    processors = h.processors;
                    epts = h.epts;
                    stacks = h.stacks;
                    vmcss = h.vmcss;
                    vmxons = h.vmxons;
                    running = h.running;
                  })
          ]

pub shared-Shared : (s : System) → Empty s → Shared (initialize_shared_data s)
unfolding initialize_shared_data
shared-Shared s h =
    elim (allocate-Allocated 0 s)
      as (λ r a. Shared (
        if r.0
        then initialize_msr_bitmap (record r.1 { reference_count = 0 })
        else some (false, r.1))) [
          | refused {pool} ↦ failed (record { holds = h.holds; running = h.running })
          | got {pool} ↦
              msr_bitmap-Shared
                (record s {
                  pool = pool;
                  live = update s.live 0 (s.live 0 + 1);
                  reference_count = 0;
                })
                (record {
                  count = refl;
                  shared_data = omega (arith, h.holds.shared.shared_data);
                  msr_bitmap = h.holds.shared.msr_bitmap;
                  io_bitmaps = h.holds.shared.io_bitmaps;
                  processors = h.holds.processors;
                  epts = h.holds.epts;
                  stacks = h.holds.stacks;
                  vmcss = h.holds.vmcss;
                  vmxons = h.holds.vmxons;
                  running = h.running;
                })
        ]
