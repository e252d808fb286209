-- ===== src/Task/Core.antt =====
-- libcoro/include/libcoro/task.hpp: the promise, the awaitable, and each atomic access of theirs as
-- one step.
use coroutines.Base.{ℕ, ◌+◌, ◌-◌, Bool, true, false, if◌then◌else◌}

-- Where the coroutine of the task stands: its body runs, waits for something that is to resume it,
-- is over with the access of `final_suspend` to come, or over.
pub data Child : Type 0 where
  active waiting ended finished : Child

-- Where the awaiting coroutine stands: in the call that creates the task, outside, in the awaitable
-- past `await_ready`, in its `coro_handle.resume()`, past it, with its handle stored, suspended,
-- and past the `co_await`.
pub data Parent : Type 0 where
  calling outside unready inside resumed stored suspended continues : Parent

-- `result_type` with the union of the value and the exception.
pub data Outcome (T E : Type 0) : Type 0 where
  empty : Outcome T E
  value : T → Outcome T E
  exception : E → Outcome T E

-- The promise, whether its frame is there, both coroutines, how many resumptions of the task's
-- coroutine are due from those that it waits for, how often `final_suspend` resumed the
-- continuation, and whether there was undefined behaviour.
pub record Task (T E : Type 0) : Type 0 where
  pub state : Bool
  pub continuation_handle : Bool
  pub stored_result : Outcome T E
  pub frame : Bool
  pub child : Child
  pub parent : Parent
  pub wakes : ℕ
  pub resumptions : ℕ
  pub undefined : Bool

module _ {T E : Type 0} where
  -- `initial_suspend` does not suspend: the body runs in the call.
  abbrev pub new_task : Task T E
  new_task = record {
    state = false;
    continuation_handle = false;
    stored_result = empty;
    frame = true;
    child = active;
    parent = calling;
    wakes = 0;
    resumptions = 0;
    undefined = false;
  }

-- `handle.done()`
abbrev pub done : Child → Bool
done active = false
done waiting = false
done ended = true
done finished = true

-- The thread of the awaiting coroutine goes on where it ran the body.
abbrev pub returned : Parent → Parent
returned calling = outside
returned inside = resumed
returned outside = outside
returned unready = unready
returned resumed = resumed
returned stored = stored
returned suspended = suspended
returned continues = continues

module _ {T E : Type 0} where
  -- The body comes to a `co_await` that suspends it.
  unfoldable pub suspend : Task T E → Task T E
  suspend s = record s { child = waiting; wakes = s.wakes + 1; parent = returned s.parent }

  -- `return_value` or `unhandled_exception`
  unfoldable pub return_value : Outcome T E → Task T E → Task T E
  return_value o s = record s { stored_result = o; child = ended }

  -- `final_awaitable::await_suspend`; where the frame is destroyed its promise is gone.
  unfoldable pub final_suspend : Task T E → Task T E
  final_suspend s =
      if s.frame
      then if s.state
        then record s { child = finished; parent = continues; resumptions = s.resumptions + 1 }
        else record s { child = finished; state = true; parent = returned s.parent }
      else record s { undefined = true }

  -- `coro_handle.resume()`: undefined where the coroutine is not suspended, or is at its end.
  unfoldable pub resume_child : Child → Task T E → Task T E
  resume_child waiting s = record s { child = active }
  resume_child active s = record s { undefined = true }
  resume_child ended s = record s { undefined = true }
  resume_child finished s = record s { undefined = true }

  -- What the body waits for resumes it.
  unfoldable pub wake : Task T E → Task T E
  unfolding resume_child
  wake s = resume_child s.child (record s { wakes = s.wakes - 1 })

  -- `await_ready`
  unfoldable pub await_ready : Task T E → Task T E
  await_ready s = record s { parent = if done s.child then continues else unready }

  -- `await_suspend`: the resumption, and `try_set_continuation`, its two accesses. If the state was
  -- set, the coroutine is not suspended.
  unfoldable pub await_suspend : Task T E → Task T E
  unfolding resume_child
  await_suspend s = resume_child s.child (record s { parent = inside })

  unfoldable pub set_continuation : Task T E → Task T E
  set_continuation s = record s { continuation_handle = true; parent = stored }

  unfoldable pub exchange_state : Task T E → Task T E
  exchange_state s = record s { state = true; parent = if s.state then continues else suspended }

  -- The destructor of the task, once the awaiting coroutine is past it.
  unfoldable pub destroy : Task T E → Task T E
  destroy s = record s { frame = false }

-- What `await_resume` does: it returns the value, rethrows the exception, or fails its assertion.
pub data Resumed (T E : Type 0) : Type 0 where
  returns : T → Resumed T E
  rethrows : E → Resumed T E
  asserts : Resumed T E

abbrev pub result : {T E : Type 0} → Outcome T E → Resumed T E
result empty = asserts
result (value v) = returns v
result (exception e) = rethrows e

unfoldable pub await_resume : {T E : Type 0} → Task T E → Resumed T E
await_resume s = result s.stored_result
