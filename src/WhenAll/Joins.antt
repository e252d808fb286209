-- ===== src/WhenAll/Joins.antt =====
-- algorithms/when-all/when_all.hpp: when the awaiting coroutine goes on, along any history.
use coroutines.Base.{
  ℕ, ◌+◌, ◌-◌, ◌^◌, ◌≤◌, ◌<◌, ◌≡◌, refl, sym, ap, subst, ◌∙◌, Bool, true, false, Result, ok, err,
  null_deref, if◌then◌else◌, ltb, ◌==◌, Bool-cases, inl, inr, arith,
}
use coroutines.WhenAll.Core.{
  Parent, starting, stored, suspended, continues, WhenAll, new_awaiter, start_task, store_handle,
  try_await, notify_task_completion, resume_awaiting, Step, starts, stores, awaits, notifies,
  resumes, Reach, start, later,
}

-- What the counter holds beyond the tasks, who is to be woken, and who is past its loop.
abbrev pub extra : Parent → ℕ
extra starting = 1
extra stored = 1
extra suspended = 0
extra continues = 0

abbrev pub sleeps : Parent → ℕ
sleeps suspended = 1
sleeps starting = 0
sleeps stored = 0
sleeps continues = 0

abbrev pub past_loop : Parent → Bool
past_loop starting = false
past_loop stored = true
past_loop suspended = true
past_loop continues = true

pub record IsSound (s : WhenAll) : Type 0 where
  pub few : s.n_tasks + 1 < 2 ^ 64
  pub tasks : s.active + s.completed ≡ s.started
  pub counts : s.count + s.completed ≡ s.n_tasks + extra s.parent
  pub wakes : s.resuming ≡ (if s.count == 0 then sleeps s.parent else 0)
  pub loop : past_loop s.parent ≡ false → s.started ≤ s.n_tasks
  pub past : past_loop s.parent ≡ true → (s.started ≡ s.n_tasks) × (s.awaiting_coro ≡ true)
  pub over : s.parent ≡ continues → s.count ≡ 0

sleeping : (p : Parent) → extra p ≡ 0 → (p ≡ continues → ⊥) → sleeps p ≡ 1
sleeping starting e h = absurd (omega (arith, e))
sleeping stored e h = absurd (omega (arith, e))
sleeping suspended e h = refl
sleeping continues e h = absurd (h refl)

sleeps-suspended : (p : Parent) → 0 < sleeps p → p ≡ suspended
sleeps-suspended starting h = absurd (omega (arith, h))
sleeps-suspended stored h = absurd (omega (arith, h))
sleeps-suspended suspended h = refl
sleeps-suspended continues h = absurd (omega (arith, h))

-- Whoever is about to resume the coroutine finds it suspended, with the counter at zero.
pub resuming-suspended :
    {s : WhenAll} → IsSound s → 0 < s.resuming → (s.count ≡ 0) × (s.parent ≡ suspended)
resuming-suspended {s} v some =
    let zero_count : s.count ≡ 0 = ground (arith, v.wakes, some) in
    (zero_count, sleeps-suspended s.parent (ground (arith, v.wakes, some, zero_count)))

abbrev resumed : WhenAll → WhenAll
resumed s = record s { parent = continues; resuming = s.resuming - 1 }

resume_awaiting-ok : (s : WhenAll) → s.awaiting_coro ≡ true → resume_awaiting s ≡ ok (resumed s)
unfolding resume_awaiting
resume_awaiting-ok s handle = elim (Bool-cases s.awaiting_coro) [
  | inl there ↦ ap (λ b. if b then ok (resumed s) else err null_deref) there
  | inr absent ↦ cc (handle, absent)
]

Step-IsSound : {s t : WhenAll} → Step s t → IsSound s → IsSound t
unfolding start_task store_handle try_await notify_task_completion resume_awaiting
Step-IsSound {s} (starts on more) v = record {
  few = v.few;
  tasks = omega (arith, v.tasks);
  counts = v.counts;
  wakes = v.wakes;
  loop = λ off. omega (arith, more);
  past = λ p. cc (on, p);
  over = v.over;
}
Step-IsSound {s} (stores on all) v = record {
  few = v.few;
  tasks = v.tasks;
  counts = omega (arith, v.counts, ap extra on);
  wakes = ground (arith, v.wakes, ap sleeps on);
  loop = λ off. cc off;
  past = λ _. (all, refl);
  over = λ e. cc e;
}
Step-IsSound {s} (awaits on) v =
    let (all, handle) = v.past (ap past_loop on) in
    let one = ap extra on in
    elim (Bool-cases (ltb 1 s.count)) [
      | inl more ↦ rw more (record {
        few = v.few;
        tasks = v.tasks;
        counts = ground (arith, v.counts, one, more, v.few);
        wakes = ground (arith, v.wakes, ap sleeps on, v.counts, one, more, v.few);
        loop = λ off. cc off;
        past = λ _. (all, handle);
        over = λ e. cc e;
      })
      | inr last ↦
          let counted : s.count ≡ 1 = ground (arith, last, v.counts, v.tasks, one, all) in
          rw last (record {
            few = v.few;
            tasks = v.tasks;
            counts = omega (arith, v.counts, one, counted);
            wakes = ground (arith, v.wakes, ap sleeps on, counted);
            loop = λ off. cc off;
            past = λ _. (all, handle);
            over = λ _. omega (arith, counted);
          })
    ]
Step-IsSound {s} (notifies some) v =
    let started : s.started ≤ s.n_tasks = elim (Bool-cases (past_loop s.parent)) [
      | inl p ↦ omega (arith, (v.past p).0)
      | inr off ↦ v.loop off
    ] in
    let positive : 0 < s.count = omega (arith, v.counts, v.tasks, some, started) in
    let woken : s.count ≡ 1 → sleeps s.parent ≡ 1 = λ one.
      sleeping s.parent (omega (arith, v.counts, v.tasks, some, started, one))
        λ e. omega (arith, v.over e, positive) in
    record {
      few = v.few;
      tasks = omega (arith, v.tasks, some);
      counts = ground (arith, v.counts, positive, v.few, some);
      wakes = ground (arith, v.wakes, v.few, v.counts, v.tasks, started, positive, some, woken);
      loop = v.loop;
      past = v.past;
      over = λ e. absurd (omega (arith, v.over e, positive));
    }
Step-IsSound {s} {t} (resumes some e) v =
    let (zero_count, asleep) = resuming-suspended v some in
    let (all, handle) = v.past (ap past_loop asleep) in
    subst IsSound (ok-injective (sym (resume_awaiting-ok s handle) ∙ e)) (record {
      few = v.few;
      tasks = v.tasks;
      counts = omega (arith, v.counts, ap extra asleep);
      wakes = ground (arith, v.wakes, ap sleeps asleep, zero_count);
      loop = λ off. cc off;
      past = λ _. (all, handle);
      over = λ _. zero_count;
    })
  where
    ok-injective : {s t : WhenAll} → ◌≡◌ {A = Result WhenAll} (ok s) (ok t) → s ≡ t
    ok-injective e = cc e

new_awaiter-IsSound : (n : ℕ) → n + 1 < 2 ^ 64 → IsSound (new_awaiter n)
new_awaiter-IsSound n few = record {
  few = few;
  tasks = omega arith;
  counts = omega (arith, few);
  wakes = ground (arith, few);
  loop = λ off. omega arith;
  past = λ p. cc p;
  over = λ e. cc e;
}

Reach-IsSound : {n : ℕ} {s : WhenAll} → n + 1 < 2 ^ 64 → Reach (new_awaiter n) s → IsSound s
Reach-IsSound few start = new_awaiter-IsSound _ few
Reach-IsSound few (later r st) = Step-IsSound st (Reach-IsSound few r)

-- For fewer than 2 ^ 64 - 1 tasks, along any interleaving of the ends of tasks with the awaiting
-- coroutine: once it is past its `co_await`, all tasks are completed, none runs and nobody is
-- about to resume it; whoever is about to resume it is the only one, finds it suspended and its
-- handle stored, and makes it go on; and if it is suspended with all tasks completed, the last of
-- them is about to resume it.
pub joins_all :
    {n : ℕ} {s : WhenAll}
    → n + 1 < 2 ^ 64
    → Reach (new_awaiter n) s
    → (s.parent ≡ continues → (s.completed ≡ s.n_tasks) × (s.active ≡ 0) × (s.resuming ≡ 0))
      × (0 < s.resuming
          → (s.parent ≡ suspended)
            × (s.resuming ≡ 1)
            × ((t : WhenAll) × (resume_awaiting s ≡ ok t) × (t.parent ≡ continues)))
      × (s.parent ≡ suspended → s.completed ≡ s.n_tasks → s.resuming ≡ 1)
joins_all {n} {s} few r =
    let v = Reach-IsSound few r in
    (
      λ e.
          let (all, _) = v.past (ap past_loop e) in
          let done : s.completed ≡ s.n_tasks = omega (arith, v.counts, v.over e, ap extra e) in
          (done, omega (arith, v.tasks, all, done), ground (arith, v.wakes, ap sleeps e)),
      λ some.
          let (zero_count, asleep) = resuming-suspended v some in
          let (_, handle) = v.past (ap past_loop asleep) in
          (
            asleep,
            ground (arith, v.wakes, ap sleeps asleep, zero_count),
            (resumed s, resume_awaiting-ok s handle, refl),
          ),
      λ asleep done. ground (arith, v.wakes, v.counts, ap sleeps asleep, ap extra asleep, done),
    )
