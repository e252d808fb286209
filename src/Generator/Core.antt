-- ===== src/Generator/Core.antt =====
-- libcoro/include/libcoro/generator.hpp: the promise, the iterator and the generator.
use coroutines.Base.{
  ℕ, zero, suc, Bool, true, false, Option, none, some, List, [], ◌∷◌, Result, ok, err, null_deref,
  wild_deref, no_fuel, ◌>>=◌, if◌then◌else◌,
}

-- What the body of the coroutine does from one suspension to the next: it yields a value and is
-- suspended in a new frame, ends, or lets an exception escape.
pub data Turn (F T E : Type 0) : Type 0 where
  yields : T → F → Turn F T E
  returns : Turn F T E
  throws : E → Turn F T E

-- Where the coroutine is suspended: in the body, or at its end.
pub data Position (F : Type 0) : Type 0 where
  suspended : F → Position F
  final : Position F

-- The coroutine with its `generator_promise`.
pub record Coroutine (F T E : Type 0) : Type 0 where
  pub position : Position F
  pub m_value : Option T
  pub m_exception : Option E

abbrev pub is_final : {F : Type 0} → Position F → Bool
is_final (suspended f) = false
is_final final = true

module _ {F T E : Type 0} where
  -- `get_return_object`, `initial_suspend`
  abbrev pub new_coroutine : F → Coroutine F T E
  new_coroutine f = record { position = suspended f; m_value = none; m_exception = none }

  -- `handle.done()`
  abbrev pub done : Coroutine F T E → Bool
  done c = is_final c.position

  abbrev pub yield_value : T → F → Coroutine F T E → Coroutine F T E
  yield_value v f c = record c { position = suspended f; m_value = some v }

  abbrev pub return_void : Coroutine F T E → Coroutine F T E
  return_void c = record c { position = final }

  abbrev pub unhandled_exception : E → Coroutine F T E → Coroutine F T E
  unhandled_exception e c = record c { position = final; m_exception = some e }

  -- `rethrow_if_exception`, called where the coroutine is done: the exception that leaves the caller.
  abbrev pub rethrow_if_exception : Coroutine F T E → Option E
  rethrow_if_exception c = if done c then c.m_exception else none

  -- `operator*`
  abbrev pub deref : Coroutine F T E → Result T
  deref c = elim c.m_value [ some v ↦ ok v | none ↦ err null_deref ]

module _ {F T E : Type 0} (body : F → Turn F T E) where
  -- `handle.resume()`; to resume a coroutine that is done is undefined behaviour.
  resume_at : Position F → Coroutine F T E → Result (Coroutine F T E)
  resume_at final c = err wild_deref
  resume_at (suspended f) c = elim (body f) [
    | yields v f' ↦ ok (yield_value v f' c)
    | returns ↦ ok (return_void c)
    | throws e ↦ ok (unhandled_exception e c)
  ]

  unfoldable pub resume : Coroutine F T E → Result (Coroutine F T E)
  unfolding resume_at
  resume c = resume_at c.position c

  -- `operator++`, with the exception that it throws.
  unfoldable pub increment : Option (Coroutine F T E) → Result (Option (Coroutine F T E) × Option E)
  increment none = err null_deref
  increment (some c) = do c' ← resume c; ok (some c', rethrow_if_exception c')

  unfoldable pub begin : Option (Coroutine F T E) → Result (Option (Coroutine F T E) × Option E)
  begin none = ok (none, none)
  begin (some c) = do c' ← resume c; ok (some c', rethrow_if_exception c')

  -- `for (auto&& x : g)` from an iterator on, with a body that breaks at some values: the values
  -- that it sees, the exception that leaves the loop, and the coroutine at its end. The first
  -- argument bounds the rounds.
  unfoldable pub loop :
      ℕ
      → (T → Bool)
      → Option (Coroutine F T E) × Option E
      → Result (List T × Option E × Option (Coroutine F T E))
  loop fuel breaks (g, some e) = ok ([], some e, g)
  loop fuel breaks (none, none) = ok ([], none, none)
  loop zero breaks (some c, none) = err no_fuel
  loop (suc fuel) breaks (some c, none) = elim (done c) [
    | true ↦ ok ([], none, some c)
    | false ↦ do
      v ← deref c
      elim (breaks v) [
        | true ↦ ok (v ∷ [], none, some c)
        | false ↦ do
          next ← increment (some c)
          (vs, e, g) ← loop fuel breaks next
          ok (v ∷ vs, e, g)
      ]
  ]

  unfoldable pub range_for :
      ℕ
      → (T → Bool)
      → Option (Coroutine F T E)
      → Result (List T × Option E × Option (Coroutine F T E))
  range_for fuel breaks g = do start ← begin g; loop fuel breaks start
