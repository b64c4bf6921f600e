-- ===== src/Driver/Entry.antt =====
-- `DriverEntry`, `DriverpDriverUnload` and `DriverpIsSuppoetedOS` of DeviceMon/driver.cpp. What the
-- other modules' initializations return is an argument.
pub mod Rollback
use device_mon.Prelude.{
  ℕ, Bool, true, false, ◌&&◌, ◌||◌, not, List, [], ◌∷◌, ◌++◌, ◌==◌, ltb, if◌then◌else◌, ◌^◌,
}

-- The modules that are initialized, in the order of `DriverEntry`.
pub data Part : Type 0 where
  log global_object perf util power_callback hotplug_callback vm : Part

-- What `DriverEntry` and the unload handler do to them.
pub data Event : Type 0 where
  started : Part → Event
  refused : Part → Event
  terminated : Part → Event
  reinitialization_registered : Event

-- `NT_SUCCESS`: the status is not negative as a 32-bit number.
abbrev pub nt_success : ℕ → Bool
nt_success status = ltb status (2 ^ 31)

abbrev pub status_reinitialization_needed : ℕ
status_reinitialization_needed = 0xC0000287

abbrev pub status_cancelled : ℕ
status_cancelled = 0xC0000120

-- What `RtlGetVersion` says: its status and `dwMajorVersion`.
pub record OsVersion : Type 0 where
  pub status : ℕ
  pub major_version : ℕ

-- `DriverpIsSuppoetedOS` on x64, where `MmSystemRangeStart` is not looked at.
unfoldable pub is_supported_os : OsVersion → Bool
is_supported_os v =
    if not (nt_success v.status)
    then false
    else (if not (v.major_version == 6) && not (v.major_version == 10) then false else true)

-- The terminations of an error path, in the source's order; each path has those of the path before
-- it behind its own.
abbrev log_termination : List Event
log_termination = terminated log ∷ []

abbrev global_object_path : List Event
global_object_path = terminated global_object ∷ log_termination

abbrev perf_path : List Event
perf_path = terminated perf ∷ global_object_path

abbrev util_path : List Event
util_path = terminated util ∷ perf_path

abbrev power_path : List Event
power_path = terminated power_callback ∷ util_path

abbrev hotplug_path : List Event
hotplug_path = terminated hotplug_callback ∷ power_path

-- From `VmInitialization` on.
unfoldable pub start_vm : (Part → ℕ) → Bool → ℕ × List Event
start_vm status need_reinitialization =
    if not (nt_success (status vm)) then (status vm, refused vm ∷ hotplug_path) else (
      status vm,
      started vm ∷ (if need_reinitialization then reinitialization_registered ∷ [] else []),
    )

-- From `PowerCallbackInitialization` on.
unfoldable pub start_callbacks : (Part → ℕ) → Bool → ℕ × List Event
unfolding start_vm
start_callbacks status need_reinitialization =
    let (last, events) = start_vm status need_reinitialization in
    if not (nt_success (status power_callback))
    then (status power_callback, refused power_callback ∷ util_path)
    else (if not (nt_success (status hotplug_callback))
        then (
          status hotplug_callback,
          started power_callback ∷ refused hotplug_callback ∷ power_path,
        )
        else (last, started power_callback ∷ started hotplug_callback ∷ events))

-- From `GlobalObjectInitialization` on.
unfoldable pub start_base : (Part → ℕ) → Bool → ℕ × List Event
unfolding start_callbacks
start_base status need_reinitialization =
    let (last, events) = start_callbacks status need_reinitialization in
    if not (nt_success (status global_object))
    then (status global_object, refused global_object ∷ log_termination)
    else (if not (nt_success (status perf))
        then (status perf, started global_object ∷ refused perf ∷ global_object_path)
        else (if not (nt_success (status util))
            then (status util, started global_object ∷ started perf ∷ refused util ∷ perf_path)
            else (last, started global_object ∷ started perf ∷ started util ∷ events)))

-- `DriverEntry`: the status and what was done. `status` gives each initialization's result.
unfoldable pub driver_entry : (Part → ℕ) → OsVersion → ℕ × List Event
unfolding start_base is_supported_os
driver_entry status version =
    let need_reinitialization = status log == status_reinitialization_needed in
    let (last, events) = start_base status need_reinitialization in
    if not need_reinitialization && not (nt_success (status log))
    then (status log, refused log ∷ [])
    else (if not (is_supported_os version)
        then (status_cancelled, started log ∷ log_termination)
        else (last, started log ∷ events))

-- `DriverpDriverUnload`.
abbrev pub driver_unload : List Event
driver_unload = terminated vm ∷ hotplug_path
