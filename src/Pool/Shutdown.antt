-- ===== src/Pool/Shutdown.antt =====
-- The pool of applications/threadpool along any history: what is resumed, and what shutdown ends.
use coroutines.Base.{
  ℕ, ◌+◌, ◌≤◌, ◌≡◌, refl, ap, ◌∙◌, Bool, true, false, List, ◌∷◌, not, ◌&&◌, ◌==◌, ==_iff,
  Bool-cases, inl, inr, arith,
}
use coroutines.Awaiters.{Pointer, awaiter, update_at}
use coroutines.Pool.Core.{
  Phase, running, looping, entered, queued, Pool, new_pool, is_closed, load_state, enter_round,
  push, pop, close, push_batch, Step, load, round, schedule, work, leave, shutdown, send, Reach,
  start, later,
}
use coroutines.Pool.Work.{waiting, copies, sentinels, Reach-IsSound}

waiting-queued : (q : Phase) → 1 ≤ waiting q → q ≡ queued
waiting-queued running h = absurd (omega arith)
waiting-queued (looping state) h = absurd (omega arith)
waiting-queued entered h = absurd (omega arith)
waiting-queued queued h = refl

-- Along any interleaving of coroutines that schedule themselves, workers, and calls of `shutdown`,
-- a coroutine at the head of the queue is suspended in it, is running after a worker popped it,
-- and lies nowhere else in the queue.
pub resumes_queued :
    {n : ℕ} {p : Pool} (w : ℕ) (rest : List Pointer)
    → Reach (new_pool n) p
    → p.awaiters ≡ awaiter w ∷ rest
    → (p.phase w ≡ queued) × ((pop (awaiter w) rest p).phase w ≡ running) × (copies w rest ≡ 0)
unfolding pop
resumes_queued {n} {p} w rest r h =
    let v = Reach-IsSound r in
    let here : (w == w) ≡ true = ground arith in
    let queued_now = waiting-queued (p.phase w) (ground (arith, v.once w, ap (copies w) h, here)) in
    (queued_now, rw here, ground (arith, v.once w, ap (copies w) h, here, ap waiting queued_now))

-- Along any interleaving of coroutines that schedule themselves, workers, and calls of `shutdown`
-- of the pool, no worker has left its loop before the pool is closed and no sentinel is in the
-- queue; once it is closed and the sentinels are sent, the queue holds exactly one sentinel for
-- each worker that is still in its loop.
pub workers_stop :
    {n : ℕ} {p : Pool}
    → Reach (new_pool n) p
    → (is_closed p.pool_state ≡ false → (p.exited ≡ 0) × (sentinels p.awaiters ≡ 0))
      × (is_closed p.pool_state ≡ true → p.closing ≡ 0 → p.idle + p.resumed ≡ sentinels p.awaiters)
workers_stop {n} {p} r =
    let v = Reach-IsSound r in
    (
      λ opened. (ground (arith, v.stops, opened), ground (arith, v.stops, opened)),
      λ closed sent. ground (arith, v.stops, v.all, closed, sent),
    )

still_queued :
    (f : ℕ → Phase) (w x : ℕ) (q : Phase)
    → f w ≡ queued
    → waiting (f x) ≡ 0
    → update_at f x q w ≡ queued
still_queued f w x q e out = elim (Bool-cases (w == x)) [
  | inl hit ↦
      absurd (omega (arith, out, ap waiting e, ap (λ y. waiting (f y)) ((==_iff w x).0 hit)))
  | inr miss ↦ rw (miss, e)
]

round-queued :
    (p : Pool) (spurious : Bool) (w x state : ℕ)
    → p.phase x ≡ looping state
    → p.phase w ≡ queued
    → ((enter_round spurious x state p).phase w ≡ queued)
      × ((enter_round spurious x state p).idle ≡ p.idle)
      × ((enter_round spurious x state p).resumed ≡ p.resumed)
unfolding enter_round
round-queued p spurious w x state h e = elim (Bool-cases (is_closed state)) [
  | inl closed ↦ rw closed (still_queued p.phase w x _ e (ap waiting h), refl, refl)
  | inr opened ↦ elim (Bool-cases ((p.pool_state == state) && not spurious)) [
    | inl exchanged ↦
        rw (opened, exchanged) (still_queued p.phase w x _ e (ap waiting h), refl, refl)
    | inr failed ↦ rw (opened, failed) (still_queued p.phase w x _ e (ap waiting h), refl, refl)
  ]
]

close-queued :
    (p : Pool) (w : ℕ)
    → ((close p).phase w ≡ p.phase w) × ((close p).idle ≡ p.idle) × ((close p).resumed ≡ p.resumed)
unfolding close
close-queued p w = elim (Bool-cases (is_closed p.pool_state)) [
  | inl closed ↦ rw closed (refl, refl, refl)
  | inr opened ↦ rw opened (refl, refl, refl)
]

-- Without a worker in its loop, no step takes a coroutine from the queue.
Step-queued :
    {p q : Pool} (w : ℕ)
    → Step p q
    → p.idle + p.resumed ≡ 0
    → p.phase w ≡ queued
    → (q.idle + q.resumed ≡ 0) × (q.phase w ≡ queued)
unfolding load_state push push_batch
Step-queued {p} w (load x h) none e = (none, still_queued p.phase w x _ e (ap waiting h))
Step-queued {p} w (round spurious x state h) none e =
    let (still, same_idle, same_resumed) = round-queued p spurious w x state h e in
    (omega (arith, none, same_idle, same_resumed), still)
Step-queued {p} w (schedule x h) none e = (none, still_queued p.phase w x _ e (ap waiting h))
Step-queued {p} w (work head rest h pos) none e = absurd (omega (arith, none, pos))
Step-queued {p} w (leave pos) none e = absurd (omega (arith, none, pos))
Step-queued {p} w shutdown none e =
    let (same_phase, same_idle, same_resumed) = close-queued p w in
    (omega (arith, none, same_idle, same_resumed), same_phase ∙ e)
Step-queued {p} w (send pos) none e = (none, e)

Reach-queued :
    {p q : Pool} (w : ℕ)
    → Reach p q
    → p.idle + p.resumed ≡ 0
    → p.phase w ≡ queued
    → (q.idle + q.resumed ≡ 0) × (q.phase w ≡ queued)
Reach-queued w start none e = (none, e)
Reach-queued w (later r st) none e =
    let (none', e') = Reach-queued w r none e in Step-queued w st none' e'

-- Where an interleaving of coroutines that schedule themselves, workers, and calls of `shutdown`
-- of the pool reaches a state in which all workers have left, a coroutine that is suspended in the
-- queue then stays suspended there in every later state.
pub late_awaiter_stranded :
    {n : ℕ} {p q : Pool} (w : ℕ)
    → Reach (new_pool n) p
    → p.exited ≡ p.n_threads
    → p.phase w ≡ queued
    → Reach p q
    → q.phase w ≡ queued
late_awaiter_stranded {n} {p} w r over e later_on =
    (Reach-queued w later_on (omega (arith, (Reach-IsSound r).all, over)) e).1
