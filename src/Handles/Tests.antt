-- ===== src/Handles/Tests.antt =====
-- Owners of handles: a history and the theorems at it.
use coroutines.Base.{◌+◌, ◌≤◌, ◌<◌, ◌≡◌, refl, none, some, [], ◌∷◌, ok, inr, arith}
use coroutines.Awaiters.{occurrences}
use coroutines.Handles.Core.{
  get, destruct, release, reset, move_construct, move_assign, move_assign_fd, put, get_address_of,
  swap,
}
use coroutines.Handles.Ledger.{owned}
use coroutines.Handles.Steps.{
  World, empty_world, constructs, destructs, move_assigns, Reach, start, later,
}
use coroutines.Handles.Conserved.{conserved, overwritten_leaks}

program : Unit {0}
unfolding get destruct release reset move_construct move_assign move_assign_fd put get_address_of
    swap
program = tt

-- The invalid value is 0. The first object, with 5, is assigned the second, with 7, and destroyed.
abbrev two_objects : World
two_objects = record {
  objects = record { values = some 5 ∷ some 7 ∷ []; closed = [] };
  given = 7 ∷ 5 ∷ [];
  released = [];
  overwritten = [];
}

two_objects-Reach : Reach 0 empty_world two_objects
unfolding program
two_objects-Reach = later (later start (constructs 5 (inr refl))) (constructs 7 (inr refl))

abbrev assigned : World
assigned = record {
  objects = record { values = some 7 ∷ some 0 ∷ []; closed = 5 ∷ [] };
  given = 7 ∷ 5 ∷ [];
  released = [];
  overwritten = [];
}

assigned-Reach : Reach 0 empty_world assigned
unfolding program
assigned-Reach = later two_objects-Reach (move_assigns 0 1 refl)

conserved_example :
    (owned 5 assigned.objects.values ≤ 1)
    × (owned 5 assigned.objects.values
          + occurrences 5 assigned.objects.closed
          + occurrences 5 assigned.released
          + occurrences 5 assigned.overwritten
        ≡ occurrences 5 assigned.given)
conserved_example = conserved 0 5 assigned-Reach (omega arith)

-- A caller writes 9 through the address of an object that has 7, and the object is destroyed.
abbrev overwritten_end : World
overwritten_end = record {
  objects = record { values = none ∷ some 0 ∷ []; closed = 9 ∷ 5 ∷ [] };
  given = 9 ∷ 7 ∷ 5 ∷ [];
  released = [];
  overwritten = 7 ∷ [];
}

overwritten_leaks_example :
    owned 7 overwritten_end.objects.values
      + occurrences 7 overwritten_end.objects.closed
      + occurrences 7 overwritten_end.released
    < occurrences 7 overwritten_end.given
unfolding program
overwritten_leaks_example =
    overwritten_leaks 0 0 9 7 assigned-Reach (omega arith) (inr refl) refl refl
      (later start (destructs 0 refl))

-- An object that is assigned to itself keeps its value.
self_assigned : move_assign 0 1 1 two_objects.objects ≡ ok two_objects.objects
unfolding program
self_assigned = refl

self_assigned_fd : move_assign_fd 0 1 1 two_objects.objects ≡ ok two_objects.objects
unfolding program
self_assigned_fd = refl

put_run :
    put 0 1 8 two_objects.objects ≡ ok (record { values = some 5 ∷ some 8 ∷ []; closed = 7 ∷ [] })
unfolding program
put_run = refl
