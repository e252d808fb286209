-- ===== src/Search/Infra.antt =====
-- applications/binary-search/coro_infra.hpp: its queue, its prefetch and its throttler, which are
-- those of applications/map under other names, with 256 places.
use coroutines.Base.{
  ℕ, zero, suc, ◌+◌, ◌-◌, ◌%◌, ◌^◌, ◌≡◌, refl, true, false, [], ◌∷◌, ◌++◌, Result, ok, err, no_fuel,
  ◌>>=◌, ◌==◌, Bool-cases, inl, inr,
}
use coroutines.Streams.Ring.{Ring, schedule, remove_next_task, has_next}
use coroutines.Streams.Throttle.{Turn, suspends, returns, Streams}
use coroutines.Streams.Throttle
use coroutines.Streams.Complete.{new_streams}

-- `scheduler_queue`
abbrev pub queue_size : ℕ
queue_size = 256

-- The throttler over the queue at its start.
abbrev pub new_throttler : {T O : Type 0} → ℕ → Streams T O
new_throttler limit = new_streams queue_size limit

abbrev push_back : {T : Type 0} → T → Ring T → Ring T
push_back = schedule

abbrev pop_front : {T : Type 0} → Ring T → Result (T × Ring T)
pop_front = remove_next_task

-- `prefetch_awaitable::await_suspend`
abbrev await_suspend : {T : Type 0} → T → Ring T → Result (T × Ring T)
await_suspend h q = pop_front (push_back h q)

-- `throttler::on_task_done`, called by `return_void` after the callback.
abbrev on_task_done : {T O : Type 0} → O → Streams T O → Streams T O
on_task_done out t = record t { limit = (t.limit + 1) % 2 ^ 64; results = t.results ++ out ∷ [] }

-- What runs alike on all arguments can be run in place of it.
pub bind-eq :
    {A B : Type 0} (m : Result A) (f g : A → Result B)
    → ((a : A) → f a ≡ g a)
    → (m >>= f) ≡ (m >>= g)
bind-eq (ok a) f g e = e a
bind-eq (err fault) f g e = refl

module _ {T O : Type 0} (body : T → Result (Turn T O)) where
  -- A `root_task` is resumed.
  unfoldable pub resume_task : ℕ → T → Streams T O → Result (Streams T O)
  resume_task zero h t = err no_fuel
  resume_task (suc fuel) h t = do
    turn ← body h
    elim turn [
      | returns out ↦ ok (on_task_done out t)
      | suspends h' ↦ do
        (next, queue) ← await_suspend h' t.ring
        resume_task fuel next (record t { ring = queue })
    ]

  -- `throttler::spawn`
  unfoldable pub spawn_task : ℕ → T → Streams T O → Result (Streams T O)
  spawn_task fuel task t = do
    t' ← elim (t.limit == 0) [
      | false ↦ ok t
      | true ↦ do (h, queue) ← pop_front t.ring; resume_task fuel h (record t { ring = queue })
    ]
    ok (record t' { ring = push_back task t'.ring; limit = (t'.limit + 2 ^ 64 - 1) % 2 ^ 64 })

  -- `throttler::run`, `scheduler_queue::run`
  unfoldable pub run_queue : ℕ → ℕ → Streams T O → Result (Streams T O)
  run_queue zero fuel t = err no_fuel
  run_queue (suc rounds) fuel t = elim (has_next t.ring) [
    | false ↦ ok t
    | true ↦ do
      (h, queue) ← pop_front t.ring
      t' ← resume_task fuel h (record t { ring = queue })
      run_queue rounds fuel t'
  ]

  resume_task-resume :
      (fuel : ℕ) (h : T) (t : Streams T O) → resume_task fuel h t ≡ Throttle.resume body fuel h t
  unfolding resume_task Throttle.resume
  resume_task-resume zero h t = refl
  resume_task-resume (suc fuel) h t = bind-eq (body h) _ _ (turns (resume_task-resume fuel))
    where
      turns :
          ((next : T) (t' : Streams T O)
            → resume_task fuel next t' ≡ Throttle.resume body fuel next t')
          → (turn : Turn T O)
          → (elim turn as (λ _. Result (Streams T O)) [
            | returns out ↦ ok (on_task_done out t)
            | suspends h' ↦
                await_suspend h' t.ring >>= λ p. resume_task fuel p.0 (record t { ring = p.1 })
          ])
            ≡ elim turn as (λ _. Result (Streams T O)) [
              | returns out ↦ ok (Throttle.on_task_complete body out t)
              | suspends h' ↦ await_suspend h' t.ring >>= λ p.
                  Throttle.resume body fuel p.0 (record t { ring = p.1 })
            ]
      turns again (returns out) = refl
      turns again (suspends h') =
          bind-eq (await_suspend h' t.ring) _ _ λ p. again p.0 (record t { ring = p.1 })

  pub spawn_task-spawn :
      (fuel : ℕ) (task : T) (t : Streams T O)
      → spawn_task fuel task t ≡ Throttle.spawn body fuel task t
  unfolding spawn_task Throttle.spawn
  spawn_task-spawn fuel task t = elim (Bool-cases (t.limit == 0)) [
    | inl none_free ↦ rw (
      none_free,
      spawn_task,
      Throttle.spawn,
      bind-eq (remove_next_task t.ring) _ _
          λ p. resume_task-resume fuel p.0 (record t { ring = p.1 }),
    )
    | inr free ↦ rw (free, spawn_task, Throttle.spawn)
  ]

  pub run_queue-run :
      (rounds fuel : ℕ) (t : Streams T O)
      → run_queue rounds fuel t ≡ Throttle.run body rounds fuel t
  unfolding run_queue Throttle.run
  run_queue-run zero fuel t = refl
  run_queue-run (suc rounds) fuel t = elim (Bool-cases (has_next t.ring)) [
    | inl busy ↦
        rw (busy, run_queue, Throttle.run)
          (bind-eq (remove_next_task t.ring) _ _ λ p.
            (rw (resume_task-resume fuel p.0 (record t { ring = p.1 })) (
              bind-eq (Throttle.resume body fuel p.0 (record t { ring = p.1 })) _ _
                λ t'. run_queue-run rounds fuel t')))
    | inr idle ↦ rw (idle, run_queue, Throttle.run)
  ]
