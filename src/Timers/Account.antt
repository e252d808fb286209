-- ===== src/Timers/Account.antt =====
-- The timer service of applications/timers/win-iocp: where the requests are, along any history.
use coroutines.Base.{
  ℕ, ◌+◌, ◌%◌, ◌^◌, ◌≡◌, refl, ap, List, [], ◌∷◌, ◌++◌, not, ◌&&◌, ◌==◌, Bool-cases, inl, inr,
  arith,
}
use coroutines.Timers.Service.{
  Request, Packet, expiry, stop, Service, new_service, is_closed, post_test, add_inflight_timer,
  push_request, arm, on_timer_expiration, exit_test, load_state, enter_round, dequeue,
  remove_inflight_timer, complete, leave_reactor, close, load_remaining, post_stop,
}
use coroutines.Timers.Steps.{
  Step, posts, counts, pushes, arms, expires, cancels, drains, settles, loads, rounds, takes,
  uncounts, completes, leaves, closes, joins, sends, Reach, start, later,
}

-- A measure of requests, added up.
abbrev pub sum : (Request → ℕ) → List Request → ℕ
sum f [] = 0
sum f (r ∷ rs) = f r + sum f rs

abbrev pub sum_packets : (Request → ℕ) → List Packet → ℕ
sum_packets f [] = 0
sum_packets f (expiry r ∷ ps) = f r + sum_packets f ps
sum_packets f (stop ∷ ps) = sum_packets f ps

sum-append : (f : Request → ℕ) (rs qs : List Request) → sum f (rs ++ qs) ≡ sum f rs + sum f qs
sum-append f [] qs = omega arith
sum-append f (r ∷ rs) qs = omega (arith, sum-append f rs qs)

sum_packets-append :
    (f : Request → ℕ) (ps qs : List Packet)
    → sum_packets f (ps ++ qs) ≡ sum_packets f ps + sum_packets f qs
sum_packets-append f [] qs = omega arith
sum_packets-append f (expiry r ∷ ps) qs = omega (arith, sum_packets-append f ps qs)
sum_packets-append f (stop ∷ ps) qs = sum_packets-append f ps qs

-- Taking one request out of the middle of a list.
sum-remove :
    (f : Request → ℕ) (rs before : List Request) (r : Request) (after : List Request)
    → rs ≡ before ++ r ∷ after
    → sum f rs ≡ f r + sum f (before ++ after)
sum-remove f rs before r after e =
    omega (arith, ap (sum f) e, sum-append f before (r ∷ after), sum-append f before after)

sum_packets-remove :
    (f : Request → ℕ) (ps before : List Packet) (p : Packet) (after : List Packet)
    → ps ≡ before ++ p ∷ after
    → sum_packets f ps ≡ sum_packets f (p ∷ []) + sum_packets f (before ++ after)
sum_packets-remove f ps before (expiry r) after e = omega (
  arith,
  ap (sum_packets f) e,
  sum_packets-append f before (expiry r ∷ after),
  sum_packets-append f before after,
)
sum_packets-remove f ps before stop after e = omega (
  arith,
  ap (sum_packets f) e,
  sum_packets-append f before (stop ∷ after),
  sum_packets-append f before after,
)

-- The requests that are counted as in flight.
abbrev pub in_flight : (Request → ℕ) → Service → ℕ
in_flight f s =
    sum f s.counted + sum f s.requests + sum f s.armed + sum_packets f s.packets + sum f s.taken

-- Each accepted request is in one place, and the counter says how many are in flight.
pub record IsSound (s : Service) : Type 0 where
  pub accounts :
      (f : Request → ℕ) → sum f s.accepted ≡ in_flight f s + sum f s.calling + sum f s.completed
  pub inflight : s.n_inflight_timers ≡ in_flight (λ r. 1) s % 2 ^ 32

-- Steps that move no request.
IsSound-still :
    {s : Service} (t : Service)
    → ((f : Request → ℕ) → in_flight f t ≡ in_flight f s)
    → t.accepted ≡ s.accepted
    → t.calling ≡ s.calling
    → t.completed ≡ s.completed
    → t.n_inflight_timers ≡ s.n_inflight_timers
    → IsSound s
    → IsSound t
IsSound-still {s} t places accepted calling completed inflight v = record {
  accounts = λ f. omega (
    arith,
    v.accounts f,
    places f,
    ap (sum f) accepted,
    ap (sum f) calling,
    ap (sum f) completed,
  );
  inflight = ground (arith, v.inflight, places (λ r. 1), inflight);
}

Step-IsSound : {s t : Service} → Step s t → IsSound s → IsSound t
unfolding post_test add_inflight_timer push_request arm on_timer_expiration exit_test load_state
    enter_round dequeue remove_inflight_timer complete leave_reactor close load_remaining post_stop
Step-IsSound {s} posts v = elim (Bool-cases (is_closed s.n_active_reactors)) [
  | inl closed ↦ rw closed v
  | inr opened ↦ rw opened (IsSound-still _ (λ f. refl) refl refl refl refl v)
]
Step-IsSound {s} (counts owned ns ctx some) v = record {
  accounts = λ f. omega (arith, v.accounts f);
  inflight = ground (arith, v.inflight);
}
Step-IsSound {s} (pushes before r after e) v =
    IsSound-still _
      (λ f.
        omega (arith, sum-append f s.requests (r ∷ []), sum-remove f s.counted before r after e))
      refl refl refl refl v
Step-IsSound {s} (arms r rest on e) v =
    IsSound-still _ (λ f. omega (arith, ap (sum f) e)) refl refl refl refl v
Step-IsSound {s} (expires before r after on e) v =
    IsSound-still _ (λ f. omega (arith, sum-remove f s.armed before r after e)) refl refl refl refl
      v
Step-IsSound {s} (cancels on flag) v = IsSound-still _ (λ f. refl) refl refl refl refl v
Step-IsSound {s} (drains on e) v = IsSound-still _ (λ f. refl) refl refl refl refl v
Step-IsSound {s} (settles on) v = elim (Bool-cases (s.n_inflight_timers == 0)) [
  | inl none_left ↦ rw none_left (IsSound-still _ (λ f. refl) refl refl refl refl v)
  | inr left ↦ rw left v
]
Step-IsSound {s} loads v = IsSound-still _ (λ f. refl) refl refl refl refl v
Step-IsSound {s} (rounds spurious before state after e) v = elim (Bool-cases (is_closed state)) [
  | inl closed ↦ rw closed (IsSound-still _ (λ f. refl) refl refl refl refl v)
  | inr opened ↦ elim (Bool-cases ((s.n_active_reactors == state) && not spurious)) [
    | inl exchanged ↦ rw (opened, exchanged) (IsSound-still _ (λ f. refl) refl refl refl refl v)
    | inr failed ↦ rw (opened, failed) (IsSound-still _ (λ f. refl) refl refl refl refl v)
  ]
]
Step-IsSound {s} (takes before (expiry r) after some e) v =
    IsSound-still _ (λ f. omega (arith, sum_packets-remove f s.packets before (expiry r) after e))
      refl refl refl refl v
Step-IsSound {s} (takes before stop after some e) v =
    IsSound-still _ (λ f. omega (arith, sum_packets-remove f s.packets before stop after e)) refl
      refl refl refl v
Step-IsSound {s} (uncounts before r after e) v = record {
  accounts = λ f. omega (arith, v.accounts f, sum-remove f s.taken before r after e);
  inflight = ground (arith, v.inflight, sum-remove (λ r. 1) s.taken before r after e);
}
Step-IsSound {s} (completes before r after e) v = record {
  accounts = λ f. omega (arith, v.accounts f, sum-remove f s.calling before r after e);
  inflight = v.inflight;
}
Step-IsSound {s} (leaves some) v = IsSound-still _ (λ f. refl) refl refl refl refl v
Step-IsSound {s} closes v = elim (Bool-cases (is_closed s.n_active_reactors)) [
  | inl closed ↦ rw closed v
  | inr opened ↦ rw opened (IsSound-still _ (λ f. refl) refl refl refl refl v)
]
Step-IsSound {s} (joins on some) v = IsSound-still _ (λ f. refl) refl refl refl refl v
Step-IsSound {s} (sends some) v = IsSound-still _ (λ f. refl) refl refl refl refl v

new_service-IsSound : IsSound new_service
new_service-IsSound = record { accounts = λ f. omega arith; inflight = ground arith }

pub Reach-IsSound : {s : Service} → Reach new_service s → IsSound s
Reach-IsSound start = new_service-IsSound
Reach-IsSound (later r st) = Step-IsSound st (Reach-IsSound r)
