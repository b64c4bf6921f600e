-- ===== src/Vm/Lifecycle.antt =====
-- How the processors enter and leave virtualization and what memory they hold: VmInitialization,
-- VmTermination, VmpInitializeSharedData, VmpStartVm, VmpInitializeVm, VmpStopVm,
-- VmpFreeProcessorData and VmpFreeSharedData (DeviceMon/vm.cpp), and UtilForEachProcessor
-- (DeviceMon/util.cpp). The memory is counted by what it is for; `EptInitialization` and
-- `EptTermination` stand here for one allocation, whose inside is that of the page tables.
pub mod Allocate
pub mod Count
pub mod Shared
pub mod Start
pub mod Stop
pub mod Whole
use device_mon.Prelude.{
  ℕ, zero, suc, ◌+◌, ◌-◌, Bool, true, false, ◌&&◌, ◌||◌, not, Option, none, some, List, [], ◌∷◌,
  ◌==◌, if◌then◌else◌, update,
}

-- What an allocation is for, as an index of `live`.
abbrev pub shared_block : ℕ
shared_block = 0

abbrev pub msr_bitmap_block : ℕ
msr_bitmap_block = 1

abbrev pub io_bitmaps_block : ℕ
io_bitmaps_block = 2

abbrev pub processor_block : ℕ
processor_block = 3

abbrev pub ept_block : ℕ
ept_block = 4

abbrev pub stack_block : ℕ
stack_block = 5

abbrev pub vmcs_block : ℕ
vmcs_block = 6

abbrev pub vmxon_block : ℕ
vmxon_block = 7

-- `ProcessorData`: which of the pointers are not null.
pub record ProcessorData : Type 0 where
  pub shared_data : Bool
  pub vmm_stack_limit : Bool
  pub vmcs_region : Bool
  pub vmxon_region : Bool
  pub ept_data : Bool

-- `live` counts the allocations that are not freed, `pool` says which of the next ones succeed,
-- `vmms` has the data of the processors that run under the VMM.
pub record System : Type 0 where
  pub live : ℕ → ℕ
  pub pool : List Bool
  pub reference_count : ℕ
  pub vmms : ℕ → Option ProcessorData

-- What the processor answers: `VmpEnterVmxMode`, `VmpInitializeVmcs`, `VmpSetupVmcs` and
-- `VmpLaunchVm`. The last does not return if it succeeds.
pub record Vmx : Type 0 where
  pub enters : ℕ → Bool
  pub initializes : ℕ → Bool
  pub sets_up : ℕ → Bool
  pub launches : ℕ → Bool

-- A run; `none` is a block freed that is not live.
abbrev pub ◌>>=◌ : {A B : Type 0} → Option A → (A → Option B) → Option B
◌>>=◌ none k = none
◌>>=◌ (some a) k = k a

infixl 5 ◌>>=◌
unfoldable pub allocate : ℕ → System → Bool × System
allocate block s = elim s.pool [
  | [] ↦ (false, s)
  | answer ∷ rest ↦ (
    answer,
    record s {
      pool = rest;
      live = if answer then update s.live block (s.live block + 1) else s.live;
    },
  )
]

unfoldable pub free : ℕ → System → Option System
free block s = elim (s.live block) [
  | zero ↦ none
  | suc n ↦ some (record s { live = update s.live block n })
]

abbrev pub free_if : Bool → ℕ → System → Option System
free_if true block s = free block s
free_if false block s = some s

-- `VmpFreeSharedData`, from the decrement on; the count of `System` is that of the shared data.
unfoldable pub release_shared_data : System → Option System
release_shared_data s =
    let s₁ = record s { reference_count = s.reference_count - 1 } in
    if s₁.reference_count == 0
    then (do s₂ ← free io_bitmaps_block s₁; s₃ ← free msr_bitmap_block s₂; free shared_block s₃)
    else some s₁

unfoldable pub free_shared_data : ProcessorData → System → Option System
unfolding release_shared_data
free_shared_data processor_data s =
    if processor_data.shared_data then release_shared_data s else some s

-- The four blocks of VmpFreeProcessorData before the shared data.
unfoldable pub free_fields : ProcessorData → System → Option System
free_fields processor_data s = do
  s₁ ← free_if processor_data.vmm_stack_limit stack_block s
  s₂ ← free_if processor_data.vmcs_region vmcs_block s₁
  s₃ ← free_if processor_data.vmxon_region vmxon_block s₂
  free_if processor_data.ept_data ept_block s₃

-- `VmpFreeProcessorData`.
unfoldable pub free_processor_data : ProcessorData → System → Option System
unfolding free_fields free_shared_data
free_processor_data processor_data s = do
  s₁ ← free_fields processor_data s
  s₂ ← free_shared_data processor_data s₁
  free processor_block s₂

-- Where VmpInitializeVm gives up: the data is freed, and the processor is as it was.
unfoldable pub give_up : ProcessorData → System → Option (Bool × System)
unfolding free_processor_data
give_up processor_data s = do s' ← free_processor_data processor_data s; some (false, s')

-- The part of VmpInitializeVm after the allocations.
unfoldable pub launch : Vmx → ℕ → ProcessorData → System → Option (Bool × System)
unfolding give_up
launch vmx i processor_data s =
    if vmx.enters i && (vmx.initializes i && (vmx.sets_up i && vmx.launches i))
    then some (true, record s { vmms = update s.vmms i (some processor_data) })
    else give_up processor_data s

unfoldable pub allocate_vmxon : Vmx → ℕ → ProcessorData → System → Option (Bool × System)
unfolding allocate launch give_up
allocate_vmxon vmx i processor_data s =
    let got = allocate vmxon_block s in
    if got.0
    then launch vmx i (record processor_data { vmxon_region = true }) got.1
    else give_up processor_data got.1

unfoldable pub allocate_vmcs : Vmx → ℕ → ProcessorData → System → Option (Bool × System)
unfolding allocate allocate_vmxon give_up
allocate_vmcs vmx i processor_data s =
    let got = allocate vmcs_block s in
    if got.0
    then allocate_vmxon vmx i (record processor_data { vmcs_region = true }) got.1
    else give_up processor_data got.1

unfoldable pub allocate_stack : Vmx → ℕ → ProcessorData → System → Option (Bool × System)
unfolding allocate allocate_vmcs give_up
allocate_stack vmx i processor_data s =
    let got = allocate stack_block s in
    if got.0
    then allocate_vmcs vmx i (record processor_data { vmm_stack_limit = true }) got.1
    else give_up processor_data got.1

unfoldable pub allocate_ept : Vmx → ℕ → ProcessorData → System → Option (Bool × System)
unfolding allocate allocate_stack give_up
allocate_ept vmx i processor_data s =
    let got = allocate ept_block s in
    if got.0
    then allocate_stack vmx i (record processor_data { ept_data = true }) got.1
    else give_up processor_data got.1

-- The data after `RtlZeroMemory` and the assignment of `shared_data`.
abbrev pub new_data : ProcessorData
new_data = record {
  shared_data = true;
  vmm_stack_limit = false;
  vmcs_region = false;
  vmxon_region = false;
  ept_data = false;
}

-- `VmpStartVm` with `VmpInitializeVm`, on processor `i`: whether the processor is virtualized.
unfoldable pub vmp_start_vm : Vmx → ℕ → System → Option (Bool × System)
unfolding allocate allocate_ept
vmp_start_vm vmx i s =
    let got = allocate processor_block s in
    if got.0
    then allocate_ept vmx i new_data (record got.1 { reference_count = got.1.reference_count + 1 })
    else some (false, got.1)

-- `VmpStopVm` on processor `i`: without a VMM, VMCALL raises an exception.
unfoldable pub vmp_stop_vm : ℕ → System → Option (Bool × System)
unfolding free_processor_data
vmp_stop_vm i s = elim (s.vmms i) [
  | none ↦ some (false, s)
  | some processor_data ↦ (do
    s' ← free_processor_data processor_data (record s { vmms = update s.vmms i none })
    some (true, s'))
]

-- `UtilForEachProcessor` from processor `i` on, with `left` more: it stops at the first failure.
-- `KeGetProcessorNumberFromIndex` fails for no index below the number of the processors, which is what
-- the loop asks it for.
unfoldable pub for_each_processor :
    (ℕ → System → Option (Bool × System)) → (i left : ℕ) → System → Option (Bool × System)
for_each_processor callback i zero s = some (true, s)
for_each_processor callback i (suc left) s = do
  done ← callback i s
  elim done.0 [
    | true ↦ for_each_processor callback (i + 1) left done.1
    | false ↦ some (false, done.1)
  ]

-- The part of `VmpInitializeSharedData` with the IO bitmaps.
unfoldable pub initialize_io_bitmaps : System → Option (Bool × System)
unfolding allocate
initialize_io_bitmaps s =
    let got = allocate io_bitmaps_block s in
    if got.0
    then some (true, got.1)
    else (do s₁ ← free msr_bitmap_block got.1; s₂ ← free shared_block s₁; some (false, s₂))

unfoldable pub initialize_msr_bitmap : System → Option (Bool × System)
unfolding allocate initialize_io_bitmaps
initialize_msr_bitmap s =
    let got = allocate msr_bitmap_block s in
    if got.0
    then initialize_io_bitmaps got.1
    else (do s₁ ← free shared_block got.1; some (false, s₁))

-- `VmpInitializeSharedData`: zeroed data has no reference.
unfoldable pub initialize_shared_data : System → Option (Bool × System)
unfolding allocate initialize_msr_bitmap
initialize_shared_data s =
    let got = allocate shared_block s in
    if got.0
    then initialize_msr_bitmap (record got.1 { reference_count = 0 })
    else some (false, got.1)

-- `UtilForEachProcessor` with `VmpStopVm`; its answer is dropped.
unfoldable pub stop_all : ℕ → System → Option System
unfolding for_each_processor vmp_stop_vm
stop_all n s = do done ← for_each_processor vmp_stop_vm 0 n s; some done.1

-- The part of VmInitialization after its two checks, for `n` processors: whether it succeeds.
-- `monitor` is what `DmEnableMonitor` answers.
unfoldable pub virtualize : Vmx → (n : ℕ) → (monitor : Bool) → System → Option (Bool × System)
unfolding initialize_shared_data for_each_processor vmp_start_vm stop_all
virtualize vmx n monitor s = do
  shared ← initialize_shared_data s
  elim shared.0 [
    | false ↦ some (false, shared.1)
    | true ↦ (do
      started ← for_each_processor (vmp_start_vm vmx) 0 n shared.1
      elim (started.0 && monitor) [
        | true ↦ some (true, started.1)
        | false ↦ (do s' ← stop_all n started.1; some (false, s'))
      ])
  ]

-- `VmInitialization`; `installed` is what `VmpIsDeviceMonInstalled` answers, `available` what
-- `VmpIsVmxAvailable` does.
unfoldable pub vm_initialization :
    Vmx → (n : ℕ) → (installed available monitor : Bool) → System → Option (Bool × System)
unfolding virtualize
vm_initialization vmx n installed available monitor s =
    if installed || not available then some (false, s) else virtualize vmx n monitor s

-- VmTermination after `DmDisableMonitor`.
unfoldable pub vm_termination : ℕ → System → Option System
unfolding stop_all
vm_termination n s = stop_all n s
