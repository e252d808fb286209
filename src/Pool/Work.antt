-- ===== src/Pool/Work.antt =====
-- The pool of applications/threadpool along any history: who is in the queue, and when workers stop.
use coroutines.Base.{
  ℕ, suc, zero, ◌+◌, ◌-◌, ◌%◌, ◌^◌, ◌≤◌, ◌<◌, ◌≡◌, refl, ap, Bool, List, [], ◌∷◌, ◌++◌,
  if◌then◌else◌, not, ◌&&◌, ◌==◌, replicate, Bool-cases, inl, inr, arith,
}
use coroutines.Awaiters.{Pointer, null, marker, awaiter, update_at, weight-update_at}
use coroutines.Pool.Core.{
  Phase, running, looping, entered, queued, Pool, new_pool, is_closed, load_state, enter_round,
  push, pop, notify_awaiter_leave, close, push_batch, Step, load, round, schedule, work, leave,
  shutdown, send, Reach, start, later,
}

abbrev pub waiting : Phase → ℕ
waiting running = 0
waiting (looping state) = 0
waiting entered = 0
waiting queued = 1

waiting_le : (p : Phase) → waiting p ≤ 1
waiting_le running = omega arith
waiting_le (looping state) = omega arith
waiting_le entered = omega arith
waiting_le queued = omega arith

-- How often a coroutine lies in the queue, and how many entries are no coroutine.
abbrev pub copies : ℕ → List Pointer → ℕ
copies w [] = 0
copies w (null ∷ ps) = copies w ps
copies w (marker ∷ ps) = copies w ps
copies w (awaiter v ∷ ps) = (if v == w then 1 else 0) + copies w ps

abbrev pub sentinels : List Pointer → ℕ
sentinels [] = 0
sentinels (null ∷ ps) = suc (sentinels ps)
sentinels (marker ∷ ps) = suc (sentinels ps)
sentinels (awaiter v ∷ ps) = sentinels ps

pub copies-append : (w : ℕ) (ps qs : List Pointer) → copies w (ps ++ qs) ≡ copies w ps + copies w qs
copies-append w [] qs = omega arith
copies-append w (null ∷ ps) qs = copies-append w ps qs
copies-append w (marker ∷ ps) qs = copies-append w ps qs
copies-append w (awaiter v ∷ ps) qs = omega (arith, copies-append w ps qs)

sentinels-append : (ps qs : List Pointer) → sentinels (ps ++ qs) ≡ sentinels ps + sentinels qs
sentinels-append [] qs = omega arith
sentinels-append (null ∷ ps) qs = omega (arith, sentinels-append ps qs)
sentinels-append (marker ∷ ps) qs = omega (arith, sentinels-append ps qs)
sentinels-append (awaiter v ∷ ps) qs = sentinels-append ps qs

pub copies-replicate : (w n : ℕ) → copies w (replicate n null) ≡ 0
copies-replicate w zero = refl
copies-replicate w (suc n) = copies-replicate w n

sentinels-replicate : (n : ℕ) → sentinels (replicate n null) ≡ n
sentinels-replicate zero = refl
sentinels-replicate (suc n) = ap suc (sentinels-replicate n)

-- The queue holds each queued coroutine once and no other; after the flag is set there is one
-- sentinel for each worker, to come, in the queue, or taken by a worker that has left.
pub record IsSound (p : Pool) : Type 0 where
  pub once : (w : ℕ) → copies w p.awaiters ≡ waiting (p.phase w)
  pub closes : p.closing ≤ (if is_closed p.pool_state then 1 else 0)
  pub stops :
      sentinels p.awaiters + p.exited + (if p.closing == 0 then 0 else p.n_threads)
      ≡ (if is_closed p.pool_state then p.n_threads else 0)
  pub all : p.idle + p.resumed + p.exited ≡ p.n_threads

IsSound-phase :
    {p : Pool} (w : ℕ) (q : Phase)
    → waiting (p.phase w) ≡ waiting q
    → IsSound p
    → IsSound (record p { phase = update_at p.phase w q })
IsSound-phase {p} w q same_waiting v = record {
  once = λ x. ground (arith, v.once x, weight-update_at waiting p.phase w q x, same_waiting);
  closes = v.closes;
  stops = v.stops;
  all = v.all;
}

-- A change of the state by a multiple of two keeps the flag.
IsSound-state :
    {p : Pool} (state : ℕ)
    → is_closed state ≡ is_closed p.pool_state
    → IsSound p
    → IsSound (record p { pool_state = state })
IsSound-state {p} state same_flag v = record {
  once = v.once;
  closes = rw same_flag v.closes;
  stops = rw same_flag v.stops;
  all = v.all;
}

round-IsSound :
    {p : Pool} (spurious : Bool) (w state : ℕ)
    → p.phase w ≡ looping state
    → IsSound p
    → IsSound (enter_round spurious w state p)
unfolding enter_round
round-IsSound {p} spurious w state h v = elim (Bool-cases (is_closed state)) [
  | inl closed ↦ rw closed (IsSound-phase w running (ap waiting h) v)
  | inr opened ↦ elim (Bool-cases ((p.pool_state == state) && not spurious)) [
    | inl exchanged ↦
        let now : p.pool_state ≡ state = ground (arith, exchanged) in
        rw (opened, exchanged)
          (IsSound-state ((state + 2) % 2 ^ 32) (ground (arith, now))
            (IsSound-phase w entered (ap waiting h) v))
    | inr failed ↦ rw (opened, failed) (IsSound-phase w (looping p.pool_state) (ap waiting h) v)
  ]
]

push-IsSound : {p : Pool} (w : ℕ) → p.phase w ≡ entered → IsSound p → IsSound (push w p)
unfolding push
push-IsSound {p} w h v = record {
  once = λ x. ground (
    arith,
    v.once x,
    copies-append x p.awaiters (awaiter w ∷ []),
    weight-update_at waiting p.phase w queued x,
    ap waiting h,
  );
  closes = v.closes;
  stops = omega (arith, v.stops, sentinels-append p.awaiters (awaiter w ∷ []));
  all = v.all;
}

pop-IsSound :
    {p : Pool} (head : Pointer) (rest : List Pointer)
    → p.awaiters ≡ head ∷ rest
    → 0 < p.idle
    → IsSound p
    → IsSound (pop head rest p)
unfolding pop
pop-IsSound {p} null rest h pos v = record {
  once = λ x. rw h at v.once x;
  closes = v.closes;
  stops = omega (arith, v.stops, ap sentinels h);
  all = omega (arith, v.all, pos);
}
pop-IsSound {p} marker rest h pos v = record {
  once = λ x. rw h at v.once x;
  closes = v.closes;
  stops = omega (arith, v.stops, ap sentinels h);
  all = omega (arith, v.all, pos);
}
pop-IsSound {p} (awaiter w) rest h pos v = record {
  once = λ x. ground (
    arith,
    v.once x,
    v.once w,
    ap (copies x) h,
    ap (copies w) h,
    waiting_le (p.phase w),
    weight-update_at waiting p.phase w running x,
  );
  closes = v.closes;
  stops = omega (arith, v.stops, ap sentinels h);
  all = omega (arith, v.all, pos);
}

leave-IsSound : {p : Pool} → 0 < p.resumed → IsSound p → IsSound (notify_awaiter_leave p)
unfolding notify_awaiter_leave
leave-IsSound {p} pos v =
    let same_flag : is_closed ((p.pool_state + 2 ^ 32 - 2) % 2 ^ 32) ≡ is_closed p.pool_state =
      ground arith in
    record {
      once = v.once;
      closes = rw same_flag v.closes;
      stops = rw same_flag v.stops;
      all = omega (arith, v.all, pos);
    }

close-IsSound : {p : Pool} → IsSound p → IsSound (close p)
unfolding close
close-IsSound {p} v = elim (Bool-cases (is_closed p.pool_state)) [
  | inl closed ↦ rw closed v
  | inr opened ↦ rw opened (record {
    once = v.once;
    closes = ground (arith, v.closes, opened);
    stops = ground (arith, v.stops, v.closes, opened);
    all = v.all;
  })
]

send-IsSound : {p : Pool} → 0 < p.closing → IsSound p → IsSound (push_batch p)
unfolding push_batch
send-IsSound {p} pos v = record {
  once = λ x. omega (
    arith,
    v.once x,
    copies-append x p.awaiters (replicate p.n_threads null),
    copies-replicate x p.n_threads,
  );
  closes = omega (arith, v.closes);
  stops = ground (
    arith,
    v.stops,
    v.closes,
    pos,
    sentinels-append p.awaiters (replicate p.n_threads null),
    sentinels-replicate p.n_threads,
  );
  all = v.all;
}

Step-IsSound : {p q : Pool} → Step p q → IsSound p → IsSound q
unfolding load_state
Step-IsSound {p} (load w h) v = IsSound-phase w (looping p.pool_state) (ap waiting h) v
Step-IsSound {p} (round spurious w state h) v = round-IsSound spurious w state h v
Step-IsSound {p} (schedule w h) v = push-IsSound w h v
Step-IsSound {p} (work head rest h pos) v = pop-IsSound head rest h pos v
Step-IsSound {p} (leave pos) v = leave-IsSound pos v
Step-IsSound {p} shutdown v = close-IsSound v
Step-IsSound {p} (send pos) v = send-IsSound pos v

new_pool-IsSound : (n : ℕ) → IsSound (new_pool n)
new_pool-IsSound n = record {
  once = λ w. refl;
  closes = omega arith;
  stops = refl;
  all = omega arith;
}

pub Reach-IsSound : {n : ℕ} {p : Pool} → Reach (new_pool n) p → IsSound p
Reach-IsSound {n} start = new_pool-IsSound n
Reach-IsSound (later r st) = Step-IsSound st (Reach-IsSound r)
