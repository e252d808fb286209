-- ===== src/WhenAll/Tests.antt =====
-- `when_all` in a short history: test data and the theorem at it.
use coroutines.Base.{◌<◌, ◌≡◌, refl, ok, arith}
use coroutines.WhenAll.Core.{
  suspended, continues, WhenAll, new_awaiter, start_task, store_handle, try_await,
  notify_task_completion, resume_awaiting, starts, stores, awaits, notifies, Reach, start, later,
}
use coroutines.WhenAll.Joins.{joins_all}

program : Unit {0}
unfolding start_task store_handle try_await notify_task_completion resume_awaiting
program = tt

-- One of two tasks ends at once, the other one after the coroutine is suspended.
abbrev last_ends : WhenAll
unfolding program
last_ends =
    notify_task_completion
      (try_await (store_handle (start_task (notify_task_completion (start_task (new_awaiter 2))))))

last_ends-Reach : Reach (new_awaiter 2) last_ends
unfolding program
last_ends-Reach =
    later
      (later
        (later
          (later (later (later start (starts refl (omega arith))) (notifies (omega arith)))
            (starts refl (omega arith)))
          (stores refl refl))
        (awaits refl))
      (notifies (omega arith))

joins_all_example :
    (last_ends.parent ≡ continues
      → (last_ends.completed ≡ last_ends.n_tasks)
        × (last_ends.active ≡ 0)
        × (last_ends.resuming ≡ 0))
    × (0 < last_ends.resuming
        → (last_ends.parent ≡ suspended)
          × (last_ends.resuming ≡ 1)
          × ((t : WhenAll) × (resume_awaiting last_ends ≡ ok t) × (t.parent ≡ continues)))
    × (last_ends.parent ≡ suspended
        → last_ends.completed ≡ last_ends.n_tasks
        → last_ends.resuming ≡ 1)
joins_all_example = joins_all (omega arith) last_ends-Reach

last_ends_wakes : last_ends.resuming ≡ 1
unfolding program last_ends
last_ends_wakes = refl
