-- ===== src/WhenAll/Core.antt =====
-- algorithms/when-all/when_all.hpp: the counter, and each atomic access of the awaiter and of the
-- tasks as one step.
use coroutines.Base.{
  ℕ, ◌+◌, ◌-◌, ◌%◌, ◌^◌, ◌<◌, ◌≡◌, Bool, true, false, Result, ok, err, null_deref, if◌then◌else◌,
  ltb, ◌==◌,
}

-- Where the coroutine stands that awaits `when_all`: in the loop of `await_suspend`, in `try_await`
-- after it stored its handle, suspended, or past the `co_await`.
pub data Parent : Type 0 where
  starting stored suspended continues : Parent

-- The number of tasks, the counter with its handle, how many tasks were started, how many of them
-- run, and how many are in `notify_task_completion` and go on to resume the handle.
pub record WhenAll : Type 0 where
  pub n_tasks : ℕ
  pub count : ℕ
  pub awaiting_coro : Bool
  pub parent : Parent
  pub started : ℕ
  pub active : ℕ
  pub completed : ℕ
  pub resuming : ℕ

-- `when_all_awaiter` with its `counter`
abbrev pub new_awaiter : ℕ → WhenAll
new_awaiter n_tasks = record {
  n_tasks = n_tasks;
  count = (n_tasks + 1) % 2 ^ 64;
  awaiting_coro = false;
  parent = starting;
  started = 0;
  active = 0;
  completed = 0;
  resuming = 0;
}

-- `t.start(remaining)`
unfoldable pub start_task : WhenAll → WhenAll
start_task s = record s { started = s.started + 1; active = s.active + 1 }

-- `try_await`: the handle, and the counter. The result tells whether the coroutine stays suspended.
unfoldable pub store_handle : WhenAll → WhenAll
store_handle s = record s { awaiting_coro = true; parent = stored }

unfoldable pub try_await : WhenAll → WhenAll
try_await s = record s {
  count = (s.count + 2 ^ 64 - 1) % 2 ^ 64;
  parent = if ltb 1 s.count then suspended else continues;
}

-- `notify_task_completion`, called at the end of a task: the counter, and its handle.
unfoldable pub notify_task_completion : WhenAll → WhenAll
notify_task_completion s = record s {
  count = (s.count + 2 ^ 64 - 1) % 2 ^ 64;
  active = s.active - 1;
  completed = s.completed + 1;
  resuming = if s.count == 1 then s.resuming + 1 else s.resuming;
}

unfoldable pub resume_awaiting : WhenAll → Result WhenAll
resume_awaiting s =
    if s.awaiting_coro
    then ok (record s { parent = continues; resuming = s.resuming - 1 })
    else err null_deref

-- The steps of the coroutine and of the tasks, interleaved. A task that ends while it is started
-- ends before the next step of the coroutine.
pub data Step (s : WhenAll) : WhenAll → Type 0 where
  starts : s.parent ≡ starting → s.started < s.n_tasks → Step s (start_task s)
  stores : s.parent ≡ starting → s.started ≡ s.n_tasks → Step s (store_handle s)
  awaits : s.parent ≡ stored → Step s (try_await s)
  notifies : 0 < s.active → Step s (notify_task_completion s)
  resumes : {t : WhenAll} → 0 < s.resuming → resume_awaiting s ≡ ok t → Step s t

pub data Reach (s : WhenAll) : WhenAll → Type 0 where
  start : Reach s s
  later : {t u : WhenAll} → Reach s t → Step t u → Reach s u
