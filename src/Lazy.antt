-- ===== src/Lazy.antt =====
-- primitives/lazy/lazy.hpp: a result that is computed when it is asked for.
mod Tests
use coroutines.Base.{
  ◌≡◌, refl, Bool, Option, none, some, Result, ok, err, null_deref, wild_deref, runtime_error,
  ◌>>=◌,
}

-- `std::suspend_always` and `std::suspend_never`.
pub data Suspend : Type 0 where
  suspend_always suspend_never : Suspend

-- The frame of the coroutine with its `lazy_promise`: suspended before its body, which computes the
-- value, suspended after it with the value in the promise, or destroyed.
pub data Frame (T : Type 0) : Type 0 where
  unstarted at_end : T → Frame T
  destroyed : Frame T

-- `lazy`; nothing else has a handle to the frame.
pub record Lazy (T : Type 0) : Type 0 where
  pub value : Option T
  pub handle : Option (Frame T)

-- `final_suspend`
abbrev pub final_suspend : Suspend
final_suspend = suspend_never

module _ {T : Type 0} where
  -- The constructor, called by `get_return_object` for a body that computes the value.
  abbrev pub new_lazy : T → Lazy T
  new_lazy v = record { value = none; handle = some (unstarted v) }

  -- `return_value` and the end of the body: a coroutine that does not suspend there destroys its
  -- frame.
  abbrev pub return_value : Suspend → T → Frame T
  return_value suspend_always v = at_end v
  return_value suspend_never v = destroyed

  -- `handle.resume()`, `handle.promise().value` and `handle.destroy()`; on a frame that is destroyed,
  -- or for the first at its end, they are undefined behaviour.
  abbrev pub resume : Suspend → Frame T → Result (Frame T)
  resume at (unstarted v) = ok (return_value at v)
  resume at (at_end v) = err wild_deref
  resume at destroyed = err wild_deref

  abbrev pub promise_value : Frame T → Result T
  promise_value (unstarted v) = err null_deref
  promise_value (at_end v) = ok v
  promise_value destroyed = err wild_deref

  abbrev pub destroy : Frame T → Result (Frame T)
  destroy (unstarted v) = ok destroyed
  destroy (at_end v) = ok destroyed
  destroy destroyed = err wild_deref

  -- `value.value()`
  abbrev pub value_of : Lazy T → Result T
  value_of l = elim l.value [ some v ↦ ok v | none ↦ err runtime_error ]

  -- `get`, with the awaitable of `final_suspend`.
  get_at : Suspend → Option (Frame T) → Lazy T → Result (T × Lazy T)
  get_at at none l = do v ← value_of l; ok (v, l)
  get_at at (some frame) l = do
    complete ← resume at frame
    v ← promise_value complete
    gone ← destroy complete
    ok (v, record { value = some v; handle = none })

  unfoldable pub get_with : Suspend → Lazy T → Result (T × Lazy T)
  unfolding get_at
  get_with at l = get_at at l.handle l

  abbrev pub get : Lazy T → Result (T × Lazy T)
  get l = get_with final_suspend l

  -- The destructor.
  abbrev pub delete : Lazy T → Result (Option (Frame T))
  delete l = elim l.handle [ none ↦ ok none | some frame ↦ do gone ← destroy frame; ok (some gone) ]

  -- `get` on a new `lazy` reads the promise of a frame that the end of the coroutine destroyed;
  -- were the awaitable of `final_suspend` one that suspends always, `get` would return the value
  -- and keep it, a second `get` would return it again, and the destructor would find no frame left
  -- to destroy.
  pub get_once :
      (v : T)
      → (get (new_lazy v) ≡ err wild_deref)
        × ((l : Lazy T) × (get_with suspend_always (new_lazy v) ≡ ok (v, l))
            × (get l ≡ ok (v, l))
            × (delete l ≡ ok none))
  unfolding get_with
  get_once v = (refl, (record { value = some v; handle = none }, refl, refl, refl))
