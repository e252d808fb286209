-- ===== src/Pool/Closed.antt =====
-- The pool of applications/threadpool once it is closed: who is still let in.
use coroutines.Base.{
  ℕ, ◌≡◌, ◌≢◌, sym, ap, ◌∙◌, subst, Bool, true, not, ◌&&◌, ◌==◌, ==_iff, Bool-cases, inl, inr,
  arith,
}
use coroutines.Awaiters.{null, marker, awaiter, update_at}
use coroutines.Pool.Core.{
  Phase, running, looping, entered, queued, Pool, is_closed, load_state, enter_round, push, pop,
  notify_awaiter_leave, close, push_batch, Step, load, round, schedule, work, leave, shutdown, send,
  Reach, start, later,
}

-- Outside, or in the loop with a state that has the flag.
abbrev IsOutside : Phase → Type 0
IsOutside running = Unit
IsOutside (looping state) = is_closed state ≡ true
IsOutside entered = ⊥
IsOutside queued = ⊥

-- A phase that is written is outside if the coroutine is the one that is followed.
IsOutside-update_at :
    (f : ℕ → Phase) (w x : ℕ) (q : Phase)
    → IsOutside (f w)
    → (x ≡ w → IsOutside q)
    → IsOutside (update_at f x q w)
IsOutside-update_at f w x q out new = elim (Bool-cases (w == x)) [
  | inl hit ↦ rw hit (new (sym ((==_iff w x).0 hit)))
  | inr miss ↦ rw miss out
]

record IsShut (w : ℕ) (p : Pool) : Type 0 where
  flag : is_closed p.pool_state ≡ true
  outside : IsOutside (p.phase w)

IsOutside-phase :
    (p : Pool) (w x : ℕ) (q : Phase) → p.phase x ≡ q → x ≡ w → IsOutside (p.phase w) → IsOutside q
IsOutside-phase p w x q h same out = subst IsOutside (sym (ap p.phase same) ∙ h) out

round-IsShut :
    (w : ℕ) (p : Pool) (spurious : Bool) (x state : ℕ)
    → p.phase x ≡ looping state
    → IsShut w p
    → IsShut w (enter_round spurious x state p)
unfolding enter_round
round-IsShut w p spurious x state h v = elim (Bool-cases (is_closed state)) [
  | inl closed ↦ rw closed record {
    flag = v.flag;
    outside = IsOutside-update_at p.phase w x running v.outside (λ e. tt);
  }
  | inr opened ↦ elim (Bool-cases ((p.pool_state == state) && not spurious)) [
    | inl exchanged ↦
        let same : p.pool_state ≡ state = ground (arith, exchanged) in
        absurd (cc (v.flag, opened, ap is_closed same))
    | inr failed ↦
        rw (opened, failed)
          record {
            flag = v.flag;
            outside =
                IsOutside-update_at p.phase w x (looping p.pool_state) v.outside (λ e. v.flag);
          }
  ]
]

Step-IsShut : {p q : Pool} (w : ℕ) → Step p q → IsShut w p → IsShut w q
unfolding load_state push pop notify_awaiter_leave close push_batch
Step-IsShut {p} w (load x h) v = record {
  flag = v.flag;
  outside = IsOutside-update_at p.phase w x (looping p.pool_state) v.outside (λ e. v.flag);
}
Step-IsShut {p} w (round spurious x state h) v = round-IsShut w p spurious x state h v
Step-IsShut {p} w (schedule x h) v = record {
  flag = v.flag;
  outside =
      IsOutside-update_at p.phase w x queued v.outside
        (λ e. IsOutside-phase p w x entered h e v.outside);
}
Step-IsShut {p} w (work null rest h pos) v = record { flag = v.flag; outside = v.outside }
Step-IsShut {p} w (work marker rest h pos) v = record { flag = v.flag; outside = v.outside }
Step-IsShut {p} w (work (awaiter x) rest h pos) v = record {
  flag = v.flag;
  outside = IsOutside-update_at p.phase w x running v.outside (λ e. tt);
}
Step-IsShut {p} w (leave pos) v = record { flag = ground (arith, v.flag); outside = v.outside }
Step-IsShut {p} w shutdown v = rw (v.flag) v
Step-IsShut {p} w (send pos) v = record { flag = v.flag; outside = v.outside }

Reach-IsShut : {p q : Pool} (w : ℕ) → Reach p q → IsShut w p → IsShut w q
Reach-IsShut w start v = v
Reach-IsShut w (later r st) v = Step-IsShut w st (Reach-IsShut w r v)

outside-ne : (q : Phase) → IsOutside q → (q ≢ entered) × (q ≢ queued)
outside-ne running out = (λ e. cc e, λ e. cc e)
outside-ne (looping state) out = (λ e. cc e, λ e. cc e)
outside-ne entered out = absurd out
outside-ne queued out = absurd out

-- Once the pool is closed it stays closed along every interleaving of coroutines that schedule
-- themselves, workers, and calls of `shutdown`, and a coroutine that is outside of `schedule` in a
-- closed pool is, in every later state, neither let in by `try_awaiter_enter` nor in the queue.
pub closed_rejects :
    {p q : Pool} (w : ℕ)
    → is_closed p.pool_state ≡ true
    → p.phase w ≡ running
    → Reach p q
    → (is_closed q.pool_state ≡ true) × (q.phase w ≢ entered) × (q.phase w ≢ queued)
closed_rejects {p} {q} w closed outside_now r =
    let v = Reach-IsShut w r record { flag = closed; outside = rw outside_now tt } in
    let (not_in, not_queued) = outside-ne (q.phase w) v.outside in (v.flag, not_in, not_queued)
