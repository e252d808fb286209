-- ===== src/Streams/Throttle.antt =====
-- applications/map/throttler.hpp and prefetch.hpp: coroutines that put themselves at the end of the
-- queue, and the throttler that limits how many there are.
use coroutines.Base.{
  ℕ, zero, suc, ◌+◌, ◌-◌, ◌%◌, ◌^◌, true, false, List, [], ◌∷◌, ◌++◌, Result, ok, err, no_fuel,
  ◌>>=◌, ◌==◌,
}
use coroutines.Streams.Ring.{Ring, schedule, remove_next_task, has_next}

-- What a resumed coroutine does next: it suspends at a prefetch, in a new frame, or it calls one
-- of its callbacks, which appends a result, and returns.
pub data Turn (T O : Type 0) : Type 0 where
  suspends : T → Turn T O
  returns : O → Turn T O

-- The scheduler, the throttler's `limit`, and the results so far.
pub record Streams (T O : Type 0) : Type 0 where
  pub ring : Ring T
  pub limit : ℕ
  pub results : List O

module _ {T O : Type 0} (body : T → Result (Turn T O)) where
  -- `on_task_complete()`, called by `return_void()` after the callback.
  abbrev pub on_task_complete : O → Streams T O → Streams T O
  on_task_complete out s = record s {
    limit = (s.limit + 1) % 2 ^ 64;
    results = s.results ++ out ∷ [];
  }

  -- `handle.resume()`: the coroutine runs up to a prefetch, where `await_suspend` schedules it and
  -- transfers to the next handle, or to its end, where the call returns.
  unfoldable pub resume : ℕ → T → Streams T O → Result (Streams T O)
  resume zero frame s = err no_fuel
  resume (suc fuel) frame s = do
    turn ← body frame
    elim turn [
      | returns out ↦ ok (on_task_complete out s)
      | suspends frame' ↦ do
        (next, ring) ← remove_next_task (schedule frame' s.ring)
        resume fuel next (record s { ring = ring })
    ]

  -- `Throttler::spawn`
  unfoldable pub spawn : ℕ → T → Streams T O → Result (Streams T O)
  spawn fuel task s = do
    s' ← elim (s.limit == 0) [
      | false ↦ ok s
      | true ↦ do
        (next, ring) ← remove_next_task s.ring
        resume fuel next (record s { ring = ring })
    ]
    ok (record s' { ring = schedule task s'.ring; limit = (s'.limit + 2 ^ 64 - 1) % 2 ^ 64 })

  unfoldable pub spawn_all : ℕ → List T → Streams T O → Result (Streams T O)
  spawn_all fuel [] s = ok s
  spawn_all fuel (task ∷ tasks) s = spawn fuel task s >>= spawn_all fuel tasks

  -- `Throttler::run`, `StaticQueueScheduler::run`: while there is a next task, it is resumed. The
  -- first argument bounds the rounds.
  unfoldable pub run : ℕ → ℕ → Streams T O → Result (Streams T O)
  run zero fuel s = err no_fuel
  run (suc rounds) fuel s = elim (has_next s.ring) [
    | false ↦ ok s
    | true ↦ do
      (next, ring) ← remove_next_task s.ring
      s' ← resume fuel next (record s { ring = ring })
      run rounds fuel s'
  ]
