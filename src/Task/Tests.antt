-- ===== src/Task/Tests.antt =====
-- Tasks: runs and the theorems at them.
use coroutines.Base.{ℕ, ◌≤◌, ◌<◌, ◌≡◌, refl, true, ◌⊎◌}
use coroutines.Task.Core.{
  continues, value, exception, Task, new_task, suspend, return_value, final_suspend, wake,
  await_ready, await_suspend, set_continuation, exchange_state, returns, await_resume, resume_child,
}
use coroutines.Task.Steps.{
  suspends, ends, finishes, asks, awaits, stores, exchanges, Reach, start, later,
}
use coroutines.Task.Sound.{is_over, Answered, resumed_with_result}
use coroutines.Task.Stale.{await_suspend_stale}

abbrev created : Task ℕ ℕ
created = new_task

-- The body waits, and the awaiting coroutine is told that it is not done.
abbrev asked : Task ℕ ℕ
unfolding suspend await_ready
asked = await_ready (suspend created)

asked-Reach : Reach created asked
unfolding suspend await_ready
asked-Reach = later (later start (suspends refl refl)) (asks refl refl)

-- `await_suspend` resumes the body, which ends with 5.
abbrev ended_early : Task ℕ ℕ
unfolding suspend await_ready await_suspend return_value final_suspend resume_child
ended_early = final_suspend (return_value (value 5) (await_suspend asked))

ended_early-Reach : Reach (await_suspend asked) ended_early
unfolding suspend await_ready await_suspend return_value final_suspend resume_child
ended_early-Reach = later (later start (ends (value 5) refl refl (λ e. cc e))) (finishes refl refl)

await_suspend_stale_example :
    (ended_early.undefined ≡ true)
    ⊎ ((0 < ended_early.wakes) × ((wake ended_early).undefined ≡ true))
unfolding asked ended_early
await_suspend_stale_example = await_suspend_stale asked-Reach refl ended_early-Reach refl

-- The awaiting coroutine stores its handle and goes on.
abbrev went_on : Task ℕ ℕ
unfolding suspend await_ready await_suspend return_value final_suspend resume_child set_continuation
    exchange_state
went_on = exchange_state (set_continuation ended_early)

went_on-Reach : Reach created went_on
unfolding suspend await_ready await_suspend return_value final_suspend resume_child set_continuation
    exchange_state
went_on-Reach =
    later
      (later
        (later (later (later asked-Reach (awaits refl refl)) (ends (value 5) refl refl (λ e. cc e)))
          (finishes refl refl))
        (stores refl refl))
      (exchanges refl refl)

resumed_with_result_example :
    Answered went_on.parent went_on × (went_on.resumptions ≤ is_over went_on.child)
resumed_with_result_example = resumed_with_result went_on-Reach

-- What it gets.
went_on_with : await_resume went_on ≡ returns 5
unfolding suspend await_ready await_suspend return_value final_suspend resume_child set_continuation
    exchange_state await_resume
went_on_with = refl

-- An awaiting coroutine that suspends is resumed by the end of the task, which then is resumed
-- once more by what it waited for.
abbrev resumed_late : Task ℕ ℕ
unfolding suspend await_ready await_suspend return_value final_suspend resume_child set_continuation
    exchange_state wake
resumed_late = final_suspend (
    return_value (exception 9)
      (wake (exchange_state (set_continuation (suspend (await_suspend asked))))))

resumed_late_with :
    (resumed_late.resumptions ≡ 1) × (resumed_late.parent ≡ continues) × (resumed_late.wakes ≡ 1)
unfolding suspend await_ready await_suspend return_value final_suspend resume_child set_continuation
    exchange_state wake
resumed_late_with = (refl, refl, refl)
