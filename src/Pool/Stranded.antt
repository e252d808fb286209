-- ===== src/Pool/Stranded.antt =====
-- The pool of applications/threadpool where a coroutine enters before `shutdown` and is pushed after
-- the workers left.
use coroutines.Base.{ℕ, zero, suc, ◌+◌, ◌≡◌, refl, ap, ◌∙◌, true, false, ◌==◌, replicate, arith}
use coroutines.Awaiters.{null, update_at}
use coroutines.Pool.Core.{
  Phase, running, looping, entered, queued, Pool, new_pool, load_state, enter_round, push, pop,
  close, push_batch, load, round, schedule, work, shutdown, send, Reach, start, later,
}
use coroutines.Pool.Shutdown.{late_awaiter_stranded}

Reach-trans : {p q s : Pool} → Reach p q → Reach q s → Reach p s
Reach-trans r start = r
Reach-trans r (later q st) = later (Reach-trans r q) st

-- The workers take the sentinels and leave.
drain :
    (k : ℕ) (p : Pool)
    → p.awaiters ≡ replicate k null
    → p.idle ≡ k
    → (q : Pool) × Reach p q
      × (q.exited ≡ p.exited + k)
      × (q.phase ≡ p.phase)
      × (q.n_threads ≡ p.n_threads)
unfolding pop
drain zero p e l = (p, start, omega arith, refl, refl)
drain (suc k) p e l =
    let p' : Pool = pop null (replicate k null) p in
    let (q, r, gone, same, threads) = drain k p' refl (omega (arith, l)) in
    (
      q,
      Reach-trans (later start (work null (replicate k null) e (omega (arith, l)))) r,
      omega (arith, gone),
      same,
      threads,
    )

-- The coroutine has entered, and the sentinels are in the queue.
abbrev sent : ℕ → ℕ → Pool
sent n w = record {
  pool_state = 3;
  n_threads = n;
  awaiters = replicate n null;
  phase = update_at (update_at (λ x. running) w (looping 0)) w entered;
  closing = 0;
  idle = n;
  resumed = 0;
  exited = 0;
}

sent-Reach : (n w : ℕ) → Reach (new_pool n) (sent n w)
unfolding load_state enter_round close push_batch
sent-Reach n w =
    let here : (w == w) ≡ true = ground arith in
    later (later (later (later start (load w refl)) (round false w 0 (rw here))) shutdown)
      (send (omega arith))

-- With any number of workers and for every coroutine, an interleaving leads from a new pool to a
-- state in which all workers have left and the coroutine is suspended in the queue, and in which
-- it stays suspended in every later state.
pub entered_stranded :
    (n w : ℕ)
    → (p : Pool) × Reach (new_pool n) p
      × (p.exited ≡ n)
      × (p.phase w ≡ queued)
      × ((q : Pool) → Reach p q → q.phase w ≡ queued)
unfolding push
entered_stranded n w =
    let here : (w == w) ≡ true = ground arith in
    let (s, r, gone, same, threads) = drain n (sent n w) refl refl in
    let inside : s.phase w ≡ entered = ap (λ (f : ℕ → Phase). f w) same ∙ rw here in
    let p : Pool = push w s in
    let reached : Reach (new_pool n) p =
      later (Reach-trans (sent-Reach n w) r) (schedule w inside) in
    let waits : p.phase w ≡ queued = rw here in
    (
      p,
      reached,
      omega (arith, gone),
      waits,
      λ q later_on. late_awaiter_stranded w reached (omega (arith, gone, threads)) waits later_on,
    )
