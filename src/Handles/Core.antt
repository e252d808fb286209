-- ===== src/Handles/Core.antt =====
-- libcoro/include/libcoro/win/unique_handle.hpp and nix/unique_fd.hpp: the operations, on objects
-- that stand at places of a list, so that two arguments can be the same object.
use coroutines.Base.{
  ℕ, Option, none, some, List, [], ◌∷◌, ◌++◌, Result, ok, err, wild_deref, ◌>>=◌, at, set, ◌==◌,
  if◌then◌else◌,
}

-- The objects, each with its `m_value` or `fd` until it is destroyed, and the handles for which the
-- function that closes them was called, the last one first.
pub record Objects : Type 0 where
  pub values : List (Option ℕ)
  pub closed : List ℕ

-- An object that is destroyed, or never was, is not to be used.
abbrev pub alive : Option ℕ → Result ℕ
alive none = err wild_deref
alive (some v) = ok v

unfoldable pub get : ℕ → Objects → Result ℕ
get i s = do o ← at s.values i; alive o

abbrev pub store : ℕ → Option ℕ → Objects → Objects
store i o s = record s { values = set s.values i o }

abbrev pub construct : ℕ → Objects → Objects
construct v s = record s { values = s.values ++ some v ∷ [] }

-- `invalid` is `Traits::invalid()`, and -1 for a file descriptor.
module _ (invalid : ℕ) where
  -- `close`, for the value of an object.
  abbrev pub close : ℕ → Objects → Objects
  close v s = if v == invalid then s else record s { closed = v ∷ s.closed }

  unfoldable pub destruct : ℕ → Objects → Result Objects
  destruct i s = do v ← get i s; ok (store i none (close v s))

  -- `release`: the value and the objects.
  unfoldable pub release : ℕ → Objects → Result (ℕ × Objects)
  release i s = do value ← get i s; ok (value, store i (some invalid) s)

  unfoldable pub reset : ℕ → ℕ → Objects → Result Objects
  reset i value s = do
    m_value ← get i s
    ok (if m_value == value then s else store i (some value) (close m_value s))

  unfoldable pub move_construct : ℕ → Objects → Result Objects
  move_construct other s = do (value, s') ← release other s; ok (construct value s')

  -- `operator=` of `unique_handle`.
  unfoldable pub move_assign : ℕ → ℕ → Objects → Result Objects
  move_assign i rhs s = do (value, s') ← release rhs s; reset i value s'

  -- `operator=` of `unique_fd`.
  unfoldable pub move_assign_fd : ℕ → ℕ → Objects → Result Objects
  move_assign_fd i ufd s = if ufd == i then ok s else do
    m_value ← get i s
    value ← get ufd s
    ok (store ufd (some invalid) (store i (some value) (close m_value s)))

  -- `put` and `operator&` of `unique_handle`, with the value that the caller writes through the
  -- pointer.
  unfoldable pub put : ℕ → ℕ → Objects → Result Objects
  put i value s = do m_value ← get i s; ok (store i (some value) (close m_value s))

-- `get_address_of` of `unique_handle` and `put` of `unique_fd`, with the value that the caller
-- writes.
unfoldable pub get_address_of : ℕ → ℕ → Objects → Result Objects
get_address_of i value s = do m_value ← get i s; ok (store i (some value) s)

unfoldable pub swap : ℕ → ℕ → Objects → Result Objects
swap i other s = do a ← get i s; b ← get other s; ok (store other (some a) (store i (some b) s))
