-- ===== src/Event/Core.antt =====
-- primitives/manual-reset-event/manual_reset_event.hpp: the event, and each atomic access of its
-- operations as one step.
use coroutines.Base.{
  ℕ, ◌≡◌, Bool, List, [], ◌∷◌, ◌++◌, Result, ok, err, null_deref, no_fuel, ◌>>=◌, if◌then◌else◌,
  not, ◌&&◌, suc, zero,
}
use coroutines.Awaiters.{Pointer, null, marker, awaiter, is_marker, same, update_at}

-- Where the coroutine that owns an awaiter stands: outside of `co_await`, past `await_ready`, in
-- the loop of `await_suspend` with its `old_val`, or suspended.
pub data Phase : Type 0 where
  running checked : Phase
  looping : Pointer → Phase
  suspended : Phase

-- `state`, with `marker` for the address of the event; the awaiters by address; and the `waiter` of
-- each call of `set` that is in its loop.
pub record Event : Type 0 where
  pub state : Pointer
  pub next_awaiter : ℕ → Pointer
  pub phase : ℕ → Phase
  pub setters : List Pointer

abbrev pub new_event : Bool → Event
new_event initially_set = record {
  state = if initially_set then marker else null;
  next_awaiter = λ w. null;
  phase = λ w. running;
  setters = [];
}

abbrev pub is_set : Event → Bool
is_set e = is_marker e.state

-- `await_ready`: an event that is set lets the coroutine go on.
unfoldable pub await_ready : ℕ → Event → Event
await_ready w e = record e { phase = update_at e.phase w (if is_set e then running else checked) }

-- The first lines of `await_suspend`.
unfoldable pub load_state : ℕ → Event → Event
load_state w e = record e { phase = update_at e.phase w (looping e.state) }

-- One round of the loop of `await_suspend`. The weak exchange may fail without a reason.
unfoldable pub await_suspend_round : Bool → ℕ → Pointer → Event → Event
await_suspend_round spurious w old_val e =
    let linked : Event = record e { next_awaiter = update_at e.next_awaiter w old_val } in
    if is_marker old_val
    then record e { phase = update_at e.phase w running }
    else if same e.state old_val && not spurious
    then record linked { state = awaiter w; phase = update_at e.phase w suspended }
    else record linked { phase = update_at e.phase w (looping e.state) }

-- `set` up to its loop.
unfoldable pub set_exchange : Event → Event
set_exchange e = record e {
  state = marker;
  setters = if is_set e then e.setters else e.state ∷ e.setters;
}

-- One round of the loop of `set`: it reads `next_awaiter`, then resumes the coroutine.
unfoldable pub resume_round : List Pointer → ℕ → List Pointer → Event → Event
resume_round before w after e = record e {
  setters = before ++ e.next_awaiter w ∷ after;
  phase = update_at e.phase w running;
}

unfoldable pub reset : Event → Event
reset e = if is_set e then record e { state = null } else e

-- The whole loop of `set`, run alone from `waiter` on: the coroutines it resumes, in order. The
-- address of the event itself is no awaiter to read from.
unfoldable pub set_loop : ℕ → (ℕ → Pointer) → Pointer → Result (List ℕ)
set_loop zero next waiter = err no_fuel
set_loop (suc fuel) next null = ok []
set_loop (suc fuel) next marker = err null_deref
set_loop (suc fuel) next (awaiter w) = do rest ← set_loop fuel next (next w); ok (w ∷ rest)

-- The steps of any number of coroutines and of calls of `set` and `reset`, interleaved.
pub data Step (e : Event) : Event → Type 0 where
  ready : (w : ℕ) → e.phase w ≡ running → Step e (await_ready w e)
  suspend : (w : ℕ) → e.phase w ≡ checked → Step e (load_state w e)
  round :
      (spurious : Bool) (w : ℕ) (old_val : Pointer)
      → e.phase w ≡ looping old_val
      → Step e (await_suspend_round spurious w old_val e)
  set : Step e (set_exchange e)
  resume :
      (before : List Pointer) (w : ℕ) (after : List Pointer)
      → e.setters ≡ before ++ awaiter w ∷ after
      → Step e (resume_round before w after e)
  clear : Step e (reset e)

pub data Reach (initially_set : Bool) : Event → Type 0 where
  start : Reach initially_set (new_event initially_set)
  later : {e f : Event} → Reach initially_set e → Step e f → Reach initially_set f
