-- ===== src/Driver/GlobalObject/Order.antt =====
-- The order in which destructors run.
use device_mon.Prelude.{ℕ, ◌≡◌, refl, ap, ◌∙◌, Bool, true, false, Option, none, some, List, [], ◌∷◌}
use device_mon.Driver.GlobalObject.{
  Globals, atexit, global_object_initialization, pop_and_call, global_object_termination,
}

-- The destructors whose registration finds memory, in the order of their constructors.
abbrev pub registered : List (Option ℕ) → List Bool → List ℕ
registered [] answers = []
registered (none ∷ ctors) answers = registered ctors answers
registered (some dtor ∷ ctors) [] = registered ctors []
registered (some dtor ∷ ctors) (false ∷ answers) = registered ctors answers
registered (some dtor ∷ ctors) (true ∷ answers) = dtor ∷ registered ctors answers

abbrev pub reversed_onto : List ℕ → List ℕ → List ℕ
reversed_onto [] ys = ys
reversed_onto (x ∷ xs) ys = reversed_onto xs (x ∷ ys)

initialization-list :
    (ctors : List (Option ℕ)) (dtors : List ℕ) (answers : List Bool)
    → (global_object_initialization ctors
        (record { dtors_list_head = dtors; answers = answers })).dtors_list_head
      ≡ reversed_onto (registered ctors answers) dtors
unfolding global_object_initialization atexit
initialization-list [] dtors answers = refl
initialization-list (none ∷ ctors) dtors answers = initialization-list ctors dtors answers
initialization-list (some dtor ∷ ctors) dtors [] = initialization-list ctors dtors []
initialization-list (some dtor ∷ ctors) dtors (false ∷ answers) =
    initialization-list ctors dtors answers
initialization-list (some dtor ∷ ctors) dtors (true ∷ answers) =
    initialization-list ctors (dtor ∷ dtors) answers

pop_and_call-all : (dtors : List ℕ) → pop_and_call dtors ≡ dtors
unfolding pop_and_call
pop_and_call-all [] = refl
pop_and_call-all (d ∷ ds) = ap (λ r. d ∷ r) (pop_and_call-all ds)

-- Starting with no destructors, `GlobalObjectTermination` after `GlobalObjectInitialization` calls
-- exactly the destructors whose registration found memory, each once, in the opposite order of the
-- constructors, and leaves none registered.
pub termination-initialization :
    (ctors : List (Option ℕ)) (answers : List Bool)
    → let start : Globals = record { dtors_list_head = []; answers = answers } in
      let (called, g) = global_object_termination (global_object_initialization ctors start) in
      (called ≡ reversed_onto (registered ctors answers) []) × (g.dtors_list_head ≡ [])
unfolding global_object_termination
termination-initialization ctors answers =
    (pop_and_call-all _ ∙ initialization-list ctors [] answers, refl)
