-- ===== src/Pool/Tests.antt =====
-- The pool in short histories: test data, runs and the theorems at them.
use coroutines.Base.{◌+◌, ◌≡◌, ◌≢◌, refl, true, false, [], arith}
use coroutines.Awaiters.{null}
use coroutines.Pool.Core.{
  entered, queued, Pool, new_pool, is_closed, load_state, enter_round, push, pop,
  notify_awaiter_leave, close, push_batch, load, round, schedule, work, shutdown, send, Reach,
  start, later,
}
use coroutines.Pool.Work.{waiting, copies, sentinels}
use coroutines.Pool.Resumptions.{schedulings, resumptions, schedulings-resumptions}
use coroutines.Pool.Stranded.{entered_stranded}
use coroutines.Pool.Closed.{closed_rejects}
use coroutines.Pool.Shutdown.{workers_stop}

program : Unit {0}
unfolding load_state enter_round push pop notify_awaiter_leave close push_batch
program = tt

-- Coroutine 5 has entered a pool of one worker.
abbrev inside : Pool
unfolding program
inside = enter_round false 5 0 (load_state 5 (new_pool 1))

inside-Reach : Reach (new_pool 1) inside
unfolding program
inside-Reach = later (later start (load 5 refl)) (round false 5 0 refl)

abbrev scheduled_once : Reach (new_pool 1) (push 5 inside)
unfolding program inside
scheduled_once = later inside-Reach (schedule 5 refl)

schedulings-resumptions_example :
    (schedulings 5 scheduled_once
      ≡ resumptions 5 scheduled_once + waiting ((push 5 inside).phase 5))
    × (copies 5 (push 5 inside).awaiters ≡ waiting ((push 5 inside).phase 5))
schedulings-resumptions_example = schedulings-resumptions 5 scheduled_once

-- The pool is shut down before the coroutine reaches the queue.
abbrev stopped : Pool
unfolding program
stopped = push 5 (pop null [] (push_batch (close inside)))

stopped-Reach : Reach (new_pool 1) stopped
unfolding program inside
stopped-Reach =
    later
      (later (later (later inside-Reach shutdown) (send (omega arith)))
        (work null [] refl (omega arith)))
      (schedule 5 refl)

workers_stop_example :
    (is_closed stopped.pool_state ≡ false → (stopped.exited ≡ 0) × (sentinels stopped.awaiters ≡ 0))
    × (is_closed stopped.pool_state ≡ true
        → stopped.closing ≡ 0
        → stopped.idle + stopped.resumed ≡ sentinels stopped.awaiters)
workers_stop_example = workers_stop stopped-Reach

entered_stranded_example :
    (p : Pool) × Reach (new_pool 3) p
    × (p.exited ≡ 3)
    × (p.phase 5 ≡ queued)
    × ((q : Pool) → Reach p q → q.phase 5 ≡ queued)
entered_stranded_example = entered_stranded 3 5

-- Another coroutine tries to enter after the pool was stopped.
abbrev rejected : Pool
unfolding program
rejected = load_state 6 stopped

closed_rejects_example :
    (is_closed rejected.pool_state ≡ true)
    × (rejected.phase 6 ≢ entered)
    × (rejected.phase 6 ≢ queued)
unfolding program inside stopped rejected
closed_rejects_example =
    closed_rejects {p = stopped} {q = rejected} 6 refl refl (later start (load 6 refl))
