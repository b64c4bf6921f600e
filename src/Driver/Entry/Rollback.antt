-- ===== src/Driver/Entry/Rollback.antt =====
-- What is running after `DriverEntry`, and after the unload handler.
use device_mon.Prelude.{
  ℕ, ◌≡◌, Bool, true, false, Option, none, some, List, [], ◌∷◌, ◌++◌, arith, if◌then◌else◌,
}
use device_mon.Driver.Entry.{
  Part, log, global_object, perf, util, power_callback, hotplug_callback, vm, Event, started,
  refused, terminated, reinitialization_registered, nt_success, OsVersion, driver_entry,
  driver_unload, start_base, start_callbacks, start_vm,
}

abbrev same : Part → Part → Bool
same log log = true
same global_object global_object = true
same perf perf = true
same util util = true
same power_callback power_callback = true
same hotplug_callback hotplug_callback = true
same vm vm = true
same _ _ = false

-- The modules that run after the events, the last one started first; `none` if anything but the
-- module started last is terminated.
abbrev pub running : List Event → List Part → Option (List Part)
running [] up = some up
running (started p ∷ es) up = running es (p ∷ up)
running (refused p ∷ es) up = running es up
running (reinitialization_registered ∷ es) up = running es up
running (terminated p ∷ es) [] = none
running (terminated p ∷ es) (top ∷ up) = if same p top then running es up else none

abbrev pub all_running : List Part
all_running = vm ∷ hotplug_callback ∷ power_callback ∷ util ∷ perf ∷ global_object ∷ log ∷ []

-- If `DriverEntry` succeeds, all modules run; if it fails, none does. In both cases modules are
-- terminated in the opposite order of their start only.
pub driver_entry-running :
    (status : Part → ℕ) (version : OsVersion)
    → let (last, events) = driver_entry status version in
      running events [] ≡ some (if nt_success last then all_running else [])
unfolding driver_entry start_base start_callbacks start_vm
driver_entry-running status version = ground arith

-- The unload handler, after a `DriverEntry` that succeeded, leaves no module running.
driver_unload-running :
    (status : Part → ℕ) (version : OsVersion)
    → nt_success (driver_entry status version).0 ≡ true
    → running ((driver_entry status version).1 ++ driver_unload) [] ≡ some []
unfolding driver_entry start_base start_callbacks start_vm
driver_unload-running status version ok = ground arith
