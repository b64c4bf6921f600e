-- ===== src/Driver/GlobalObject.antt =====
-- DeviceMon/global_object.cpp. A destructor is the number that names it. `ExAllocatePoolWithTag`
-- is not in the repository; whether its calls succeed is a list of answers.
pub mod Order
use device_mon.Prelude.{ℕ, Bool, true, false, Option, none, some, List, [], ◌∷◌}

-- The list of `DestructorEntry` elements, and the answers of the allocator that are left.
pub record Globals : Type 0 where
  pub dtors_list_head : List ℕ
  pub answers : List Bool

-- `atexit`: the result and the state.
unfoldable pub atexit : ℕ → Globals → ℕ × Globals
atexit dtor g = elim g.answers [
  | [] ↦ (1, g)
  | answer ∷ rest ↦ elim answer [
    | false ↦ (1, record g { answers = rest })
    | true ↦ (0, record g { dtors_list_head = dtor ∷ g.dtors_list_head; answers = rest })
  ]
]

-- The loop of `GlobalObjectInitialization`. A constructor stands for the destructor that it
-- registers, if it has one.
unfoldable pub global_object_initialization : List (Option ℕ) → Globals → Globals
unfolding atexit
global_object_initialization [] g = g
global_object_initialization (none ∷ ctors) g = global_object_initialization ctors g
global_object_initialization (some dtor ∷ ctors) g =
    global_object_initialization ctors (atexit dtor g).1

-- The loop of `GlobalObjectTermination`, over what `PopEntryList` gives: the destructors that are
-- called, in order.
unfoldable pub pop_and_call : List ℕ → List ℕ
pop_and_call [] = []
pop_and_call (dtor ∷ rest) = dtor ∷ pop_and_call rest

unfoldable pub global_object_termination : Globals → List ℕ × Globals
unfolding pop_and_call
global_object_termination g = (pop_and_call g.dtors_list_head, record g { dtors_list_head = [] })
