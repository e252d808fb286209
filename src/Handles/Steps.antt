-- ===== src/Handles/Steps.antt =====
-- libcoro/include/libcoro/win/unique_handle.hpp and nix/unique_fd.hpp: histories of owners.
use coroutines.Base.{ℕ, ◌≡◌, ◌⊎◌, none, List, [], ◌∷◌, ok}
use coroutines.Handles.Core.{
  Objects, get, store, construct, destruct, release, reset, move_construct, move_assign,
  move_assign_fd, put, get_address_of, swap,
}
use coroutines.Handles.Ledger.{owned}

-- The objects with the values that the callers gave them, those that `release` gave back, and those
-- that were in an object when a caller wrote through its address.
pub record World : Type 0 where
  pub objects : Objects
  pub given : List ℕ
  pub released : List ℕ
  pub overwritten : List ℕ

abbrev pub empty_world : World
empty_world = record {
  objects = record { values = []; closed = [] };
  given = [];
  released = [];
  overwritten = [];
}

module _ (invalid : ℕ) where
  -- The system hands out no handle that an object has.
  abbrev pub IsFresh : ℕ → Objects → Type 0
  IsFresh v s = (v ≡ invalid) ⊎ (owned v s.values ≡ 0)

  -- The operations of both classes, on the same objects. What `put` is given is opened after the
  -- old value is closed.
  pub data Step (w : World) : World → Type 0 where
    constructs :
        (v : ℕ)
        → IsFresh v w.objects
        → Step w (record w { objects = construct v w.objects; given = v ∷ w.given })
    destructs :
        (i : ℕ) {t : Objects}
        → destruct invalid i w.objects ≡ ok t
        → Step w (record w { objects = t })
    releases :
        (i v : ℕ) {t : Objects}
        → release invalid i w.objects ≡ ok (v, t)
        → Step w (record w { objects = t; released = v ∷ w.released })
    resets :
        (i v : ℕ) {t : Objects}
        → IsFresh v w.objects
        → reset invalid i v w.objects ≡ ok t
        → Step w (record w { objects = t; given = v ∷ w.given })
    resets_same :
        (i v : ℕ) {t : Objects}
        → get i w.objects ≡ ok v
        → reset invalid i v w.objects ≡ ok t
        → Step w (record w { objects = t })
    move_constructs :
        (i : ℕ) {t : Objects}
        → move_construct invalid i w.objects ≡ ok t
        → Step w (record w { objects = t })
    move_assigns :
        (i j : ℕ) {t : Objects}
        → move_assign invalid i j w.objects ≡ ok t
        → Step w (record w { objects = t })
    move_assigns_fd :
        (i j : ℕ) {t : Objects}
        → move_assign_fd invalid i j w.objects ≡ ok t
        → Step w (record w { objects = t })
    puts :
        (i v : ℕ) {t : Objects}
        → IsFresh v (store i none w.objects)
        → put invalid i v w.objects ≡ ok t
        → Step w (record w { objects = t; given = v ∷ w.given })
    writes :
        (i v m : ℕ) {t : Objects}
        → IsFresh v w.objects
        → get i w.objects ≡ ok m
        → get_address_of i v w.objects ≡ ok t
        → Step w (record w { objects = t; given = v ∷ w.given; overwritten = m ∷ w.overwritten })
    swaps : (i j : ℕ) {t : Objects} → swap i j w.objects ≡ ok t → Step w (record w { objects = t })

  pub data Reach (w : World) : World → Type 0 where
    start : Reach w w
    later : {t u : World} → Reach w t → Step t u → Reach w u
