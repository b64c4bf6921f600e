-- ===== src/Tests/DriverRuns.antt =====
-- A load that succeeds, and constructors of which one finds no memory.
use device_mon.Prelude.{
  ℕ, ◌≡◌, refl, Bool, true, false, Option, none, some, List, [], ◌∷◌, if◌then◌else◌,
}
use device_mon.Driver.Entry.{Part, OsVersion, nt_success, driver_entry}
use device_mon.Driver.Entry.Rollback.{running, all_running, driver_entry-running}
use device_mon.Driver.GlobalObject.{
  Globals, global_object_initialization, global_object_termination,
}
use device_mon.Driver.GlobalObject.Order.{registered, reversed_onto, termination-initialization}

abbrev all_succeed : Part → ℕ
all_succeed part = 0

abbrev util_fails : Part → ℕ
util_fails Part.util = 0xC0000001
util_fails _ = 0

abbrev windows_10 : OsVersion
windows_10 = record { status = 0; major_version = 10 }

driver_entry-running_example :
    let (last, events) = driver_entry util_fails windows_10 in
    running events [] ≡ some (if nt_success last then all_running else [])
driver_entry-running_example = driver_entry-running util_fails windows_10

succeeds : nt_success (driver_entry all_succeed windows_10).0 ≡ true
unfolding driver_entry
succeeds = refl

abbrev ctors : List (Option ℕ)
ctors = some 1 ∷ none ∷ some 2 ∷ some 3 ∷ []

abbrev answers : List Bool
answers = true ∷ false ∷ true ∷ []

termination-initialization_example :
    let start : Globals = record { dtors_list_head = []; answers = answers } in
    let (called, g) = global_object_termination (global_object_initialization ctors start) in
    (called ≡ reversed_onto (registered ctors answers) []) × (g.dtors_list_head ≡ [])
termination-initialization_example = termination-initialization ctors answers
