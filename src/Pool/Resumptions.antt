-- ===== src/Pool/Resumptions.antt =====
-- The pool of applications/threadpool along any history: how often a coroutine is scheduled, and how
-- often a worker resumes it.
use coroutines.Base.{
  ℕ, ◌+◌, ◌≡◌, refl, ap, Bool, List, [], ◌∷◌, if◌then◌else◌, not, ◌&&◌, ◌==◌, replicate, Bool-cases,
  inl, inr, arith,
}
use coroutines.Awaiters.{Pointer, null, marker, awaiter}
use coroutines.Pool.Core.{
  Pool, new_pool, is_closed, load_state, enter_round, push, pop, notify_awaiter_leave, close,
  push_batch, Step, load, round, schedule, work, leave, shutdown, send, Reach, start, later,
}
use coroutines.Pool.Work.{waiting, copies, copies-append, copies-replicate, Reach-IsSound}

-- Whether a step puts the coroutine into the queue, and whether a worker takes it out.
abbrev pub scheduled : {p q : Pool} → ℕ → Step p q → ℕ
scheduled w (load x h) = 0
scheduled w (round spurious x state h) = 0
scheduled w (schedule x h) = if x == w then 1 else 0
scheduled w (work head rest h pos) = 0
scheduled w (leave pos) = 0
scheduled w shutdown = 0
scheduled w (send pos) = 0

abbrev pub taken_out : {p q : Pool} → ℕ → Step p q → ℕ
taken_out w (load x h) = 0
taken_out w (round spurious x state h) = 0
taken_out w (schedule x h) = 0
taken_out w (work head rest h pos) = copies w (head ∷ [])
taken_out w (leave pos) = 0
taken_out w shutdown = 0
taken_out w (send pos) = 0

abbrev pub schedulings : {p q : Pool} → ℕ → Reach p q → ℕ
schedulings w start = 0
schedulings w (later r st) = schedulings w r + scheduled w st

abbrev pub resumptions : {p q : Pool} → ℕ → Reach p q → ℕ
resumptions w start = 0
resumptions w (later r st) = resumptions w r + taken_out w st

round-awaiters :
    (p : Pool) (spurious : Bool) (x state : ℕ)
    → (enter_round spurious x state p).awaiters ≡ p.awaiters
unfolding enter_round
round-awaiters p spurious x state = elim (Bool-cases (is_closed state)) [
  | inl closed ↦ rw closed
  | inr opened ↦ elim (Bool-cases ((p.pool_state == state) && not spurious)) [
    | inl exchanged ↦ rw (opened, exchanged)
    | inr failed ↦ rw (opened, failed)
  ]
]

close-awaiters : (p : Pool) → (close p).awaiters ≡ p.awaiters
unfolding close
close-awaiters p = elim (Bool-cases (is_closed p.pool_state)) [
  | inl closed ↦ rw closed
  | inr opened ↦ rw opened
]

pop-copies :
    (w : ℕ) (head : Pointer) (rest : List Pointer) (p : Pool)
    → p.awaiters ≡ head ∷ rest
    → copies w (pop head rest p).awaiters + copies w (head ∷ []) ≡ copies w p.awaiters
unfolding pop
pop-copies w null rest p h = omega (arith, ap (copies w) h)
pop-copies w marker rest p h = omega (arith, ap (copies w) h)
pop-copies w (awaiter v) rest p h = omega (arith, ap (copies w) h)

Step-copies :
    {p q : Pool} (w : ℕ) (st : Step p q)
    → copies w q.awaiters + taken_out w st ≡ copies w p.awaiters + scheduled w st
unfolding load_state push notify_awaiter_leave push_batch
Step-copies w (load x h) = refl
Step-copies {p} w (round spurious x state h) =
    omega (arith, ap (copies w) (round-awaiters p spurious x state))
Step-copies {p} w (schedule x h) = omega (arith, copies-append w p.awaiters (awaiter x ∷ []))
Step-copies {p} w (work head rest h pos) = omega (arith, pop-copies w head rest p h)
Step-copies w (leave pos) = refl
Step-copies {p} w shutdown = omega (arith, ap (copies w) (close-awaiters p))
Step-copies {p} w (send pos) =
    omega (
      arith,
      copies-append w p.awaiters (replicate p.n_threads null),
      copies-replicate w p.n_threads,
    )

Reach-copies :
    {n : ℕ} {p : Pool} (w : ℕ) (r : Reach (new_pool n) p)
    → resumptions w r + copies w p.awaiters ≡ schedulings w r
Reach-copies w start = refl
Reach-copies w (later r st) = omega (arith, Reach-copies w r, Step-copies w st)

-- Along any interleaving of coroutines that schedule themselves, workers, and calls of `shutdown`
-- of the pool, a coroutine went into the queue as often as a worker took it out to resume it, and
-- once more exactly if it is suspended in the queue now, where it then lies once.
pub schedulings-resumptions :
    {n : ℕ} {p : Pool} (w : ℕ) (r : Reach (new_pool n) p)
    → (schedulings w r ≡ resumptions w r + waiting (p.phase w))
      × (copies w p.awaiters ≡ waiting (p.phase w))
schedulings-resumptions w r =
    let once = (Reach-IsSound r).once w in (omega (arith, Reach-copies w r, once), once)
