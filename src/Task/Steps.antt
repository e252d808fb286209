-- ===== src/Task/Steps.antt =====
-- The interleavings of a task of libcoro/include/libcoro/task.hpp with the coroutine that awaits it
-- and with what its body waits for.
use coroutines.Base.{◌<◌, ◌≡◌, ◌≢◌, false}
use coroutines.Task.Core.{
  active, ended, outside, unready, resumed, stored, continues, Outcome, empty, Task, suspend,
  return_value, final_suspend, wake, await_ready, await_suspend, set_continuation, exchange_state,
  destroy,
}

-- Nothing happens after undefined behaviour.
pub data Step {T E : Type 0} (s : Task T E) : Task T E → Type 0 where
  suspends : s.undefined ≡ false → s.child ≡ active → Step s (suspend s)
  ends :
      (o : Outcome T E)
      → s.undefined ≡ false
      → s.child ≡ active
      → o ≢ empty
      → Step s (return_value o s)
  finishes : s.undefined ≡ false → s.child ≡ ended → Step s (final_suspend s)
  wakes : s.undefined ≡ false → 0 < s.wakes → Step s (wake s)
  asks : s.undefined ≡ false → s.parent ≡ outside → Step s (await_ready s)
  awaits : s.undefined ≡ false → s.parent ≡ unready → Step s (await_suspend s)
  stores : s.undefined ≡ false → s.parent ≡ resumed → Step s (set_continuation s)
  exchanges : s.undefined ≡ false → s.parent ≡ stored → Step s (exchange_state s)
  destroys : s.undefined ≡ false → s.parent ≡ continues → Step s (destroy s)

pub data Reach {T E : Type 0} (s : Task T E) : Task T E → Type 0 where
  start : Reach s s
  later : {t u : Task T E} → Reach s t → Step t u → Reach s u
