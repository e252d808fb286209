-- ===== src/Timers/Late.antt =====
-- The timer service of applications/timers/win-iocp: requests that come too late for the worker.
use coroutines.Base.{
  ℕ, ◌^◌, ◌≤◌, ◌<◌, ◌≡◌, refl, ap, ◌∙◌, false, List, [], ◌∷◌, ◌++◌, length, not, ◌&&◌, ◌==◌,
  Bool-cases, inl, inr, arith,
}
use coroutines.Timers.Service.{
  Request, expiry, stop, Service, new_service, is_closed, post_test, add_inflight_timer,
  push_request, arm, on_timer_expiration, exit_test, load_state, enter_round, dequeue,
  remove_inflight_timer, complete, leave_reactor, close, load_remaining, post_stop,
}
use coroutines.Timers.Steps.{
  takes_requests, Step, posts, counts, pushes, arms, expires, cancels, drains, settles, loads,
  rounds, takes, uncounts, completes, leaves, closes, joins, sends, Reach, start, later,
}
use coroutines.Timers.Account.{sum, Reach-IsSound}
use coroutines.Timers.Ends.{sum-length}

-- What stays once the worker takes no more requests: the request at the head of the queue, the
-- worker unless nothing is in flight, and the accepted requests.
record Stuck (r : Request) (s t : Service) : Type 0 where
  head : (rest : List Request) × (t.requests ≡ r ∷ rest)
  off : takes_requests t.worker ≡ false
  worker : (s.n_inflight_timers == 0) ≡ false → t.worker ≡ s.worker

Stuck-same :
    (r : Request) (s t : Service)
    → takes_requests s.worker ≡ false
    → (rest : List Request) × (s.requests ≡ r ∷ rest)
    → t.requests ≡ s.requests
    → t.worker ≡ s.worker
    → Stuck r s t
Stuck-same r s t off (rest, e) requests worker = record {
  head = (rest, requests ∙ e);
  off = ap takes_requests worker ∙ off;
  worker = λ busy. worker;
}

Step-Stuck :
    {s t : Service} (r : Request)
    → Step s t
    → takes_requests s.worker ≡ false
    → (rest : List Request) × (s.requests ≡ r ∷ rest)
    → Stuck r s t
unfolding post_test add_inflight_timer push_request arm on_timer_expiration exit_test load_state
    enter_round dequeue remove_inflight_timer complete leave_reactor close load_remaining post_stop
Step-Stuck {s} r posts off h = elim (Bool-cases (is_closed s.n_active_reactors)) [
  | inl closed ↦ rw closed (Stuck-same r s s off h refl refl)
  | inr opened ↦ rw opened (Stuck-same r s _ off h refl refl)
]
Step-Stuck {s} r (counts owned ns ctx some) off h = record {
  head = h;
  off = off;
  worker = λ busy. refl;
}
Step-Stuck {s} r (pushes before q after e) off (rest, h) = record {
  head = (rest ++ q ∷ [], ap (λ rs. rs ++ q ∷ []) h);
  off = off;
  worker = λ busy. refl;
}
Step-Stuck {s} r (arms q rest on e) off h = cc (on, off)
Step-Stuck {s} r (expires before q after on e) off h = Stuck-same r s _ off h refl refl
Step-Stuck {s} r (cancels on flag) off h = cc (ap takes_requests on, off)
Step-Stuck {s} r (drains on e) off h = cc (ap takes_requests on, off)
Step-Stuck {s} r (settles on) off h = elim (Bool-cases (s.n_inflight_timers == 0)) [
  | inl none_left ↦ rw none_left (record { head = h; off = refl; worker = λ busy. cc busy })
  | inr left ↦ rw left (Stuck-same r s s off h refl refl)
]
Step-Stuck {s} r loads off h = Stuck-same r s _ off h refl refl
Step-Stuck {s} r (rounds spurious before state after e) off h =
    elim (Bool-cases (is_closed state)) [
      | inl closed ↦ rw closed (Stuck-same r s _ off h refl refl)
      | inr opened ↦ elim (Bool-cases ((s.n_active_reactors == state) && not spurious)) [
        | inl exchanged ↦ rw (opened, exchanged) (Stuck-same r s _ off h refl refl)
        | inr failed ↦ rw (opened, failed) (Stuck-same r s _ off h refl refl)
      ]
    ]
Step-Stuck {s} r (takes before (expiry q) after some e) off h = Stuck-same r s _ off h refl refl
Step-Stuck {s} r (takes before stop after some e) off h = Stuck-same r s _ off h refl refl
Step-Stuck {s} r (uncounts before q after e) off h = Stuck-same r s _ off h refl refl
Step-Stuck {s} r (completes before q after e) off h = Stuck-same r s _ off h refl refl
Step-Stuck {s} r (leaves some) off h = Stuck-same r s _ off h refl refl
Step-Stuck {s} r closes off h = elim (Bool-cases (is_closed s.n_active_reactors)) [
  | inl closed ↦ rw closed (Stuck-same r s s off h refl refl)
  | inr opened ↦ rw opened (Stuck-same r s _ off h refl refl)
]
Step-Stuck {s} r (joins on some) off h = Stuck-same r s _ off h refl refl
Step-Stuck {s} r (sends some) off h = Stuck-same r s _ off h refl refl

-- Accepted requests stay accepted.
Step-grows : {s t : Service} → Step s t → length s.accepted ≤ length t.accepted
unfolding post_test add_inflight_timer push_request arm on_timer_expiration exit_test load_state
    enter_round dequeue remove_inflight_timer complete leave_reactor close load_remaining post_stop
Step-grows {s} posts = elim (Bool-cases (is_closed s.n_active_reactors)) [
  | inl closed ↦ rw closed (omega arith)
  | inr opened ↦ rw opened (omega arith)
]
Step-grows (counts owned ns ctx some) = omega arith
Step-grows (pushes before q after e) = omega arith
Step-grows (arms q rest on e) = omega arith
Step-grows (expires before q after on e) = omega arith
Step-grows (cancels on flag) = omega arith
Step-grows (drains on e) = omega arith
Step-grows {s} (settles on) = elim (Bool-cases (s.n_inflight_timers == 0)) [
  | inl none_left ↦ rw none_left (omega arith)
  | inr left ↦ rw left (omega arith)
]
Step-grows loads = omega arith
Step-grows {s} (rounds spurious before state after e) = elim (Bool-cases (is_closed state)) [
  | inl closed ↦ rw closed (omega arith)
  | inr opened ↦ elim (Bool-cases ((s.n_active_reactors == state) && not spurious)) [
    | inl exchanged ↦ rw (opened, exchanged) (omega arith)
    | inr failed ↦ rw (opened, failed) (omega arith)
  ]
]
Step-grows (takes before (expiry q) after some e) = omega arith
Step-grows (takes before stop after some e) = omega arith
Step-grows (uncounts before q after e) = omega arith
Step-grows (completes before q after e) = omega arith
Step-grows (leaves some) = omega arith
Step-grows {s} closes = elim (Bool-cases (is_closed s.n_active_reactors)) [
  | inl closed ↦ rw closed (omega arith)
  | inr opened ↦ rw opened (omega arith)
]
Step-grows (joins on some) = omega arith
Step-grows (sends some) = omega arith

-- A request in the queue is counted as in flight.
queued-busy :
    {s : Service} (r : Request) (rest : List Request)
    → Reach new_service s
    → length s.accepted < 2 ^ 32
    → s.requests ≡ r ∷ rest
    → (s.n_inflight_timers == 0) ≡ false
queued-busy {s} r rest reached few e =
    let v = Reach-IsSound reached in
    let one : Request → ℕ = λ r. 1 in
    ground (arith, v.inflight, v.accounts one, sum-length s.accepted, few, ap (sum one) e)

Reach-append : {s t u : Service} → Reach s t → Reach t u → Reach s u
Reach-append r start = r
Reach-append r (later on st) = later (Reach-append r on) st

-- `Stuck` after one more step of a history.
Stuck-next :
    {s t u : Service} (r : Request) (rest : List Request)
    → Reach new_service s
    → Reach s t
    → Step t u
    → length u.accepted < 2 ^ 32
    → takes_requests s.worker ≡ false
    → s.requests ≡ r ∷ rest
    → (length t.accepted < 2 ^ 32
        → ((others : List Request) × (t.requests ≡ r ∷ others))
          × (takes_requests t.worker ≡ false)
          × (t.worker ≡ s.worker))
    → ((others : List Request) × (u.requests ≡ r ∷ others))
      × (takes_requests u.worker ≡ false)
      × (u.worker ≡ s.worker)
Stuck-next {s} {t} {u} r rest before on st few off e so_far =
    let grows : length t.accepted ≤ length u.accepted = Step-grows st in
    let (head, off', same) = so_far (omega (arith, few, grows)) in
    let stuck = Step-Stuck r st off' head in
    let busy = queued-busy r head.0 (Reach-append before on) (omega (arith, few, grows)) head.1 in
    (stuck.head, stuck.off, stuck.worker busy ∙ same)

-- `Stuck` along a history.
Reach-Stuck :
    {s t : Service} (r : Request) (rest : List Request)
    → Reach new_service s
    → Reach s t
    → length t.accepted < 2 ^ 32
    → takes_requests s.worker ≡ false
    → s.requests ≡ r ∷ rest
    → ((others : List Request) × (t.requests ≡ r ∷ others))
      × (takes_requests t.worker ≡ false)
      × (t.worker ≡ s.worker)
Reach-Stuck r rest before start few off e = ((rest, e), off, refl)
Reach-Stuck r rest before (later on st) few off e =
    Stuck-next r rest before on st few off e (λ h. Reach-Stuck r rest before on h off e)

-- Along any interleaving of calls that post, the worker, reactors and calls of `shutdown` of the
-- timer service, a request that heads the queue when the worker takes no more requests stays there
-- in every later state with fewer than 2 ^ 32 accepted requests, and the worker stays where it is:
-- it never exits if it has not.
pub late_post_stuck :
    {s t : Service} (r : Request) (rest : List Request)
    → Reach new_service s
    → takes_requests s.worker ≡ false
    → s.requests ≡ r ∷ rest
    → Reach s t
    → length t.accepted < 2 ^ 32
    → ((others : List Request) × (t.requests ≡ r ∷ others)) × (t.worker ≡ s.worker)
late_post_stuck r rest before off e on few =
    let (head, _, same) = Reach-Stuck r rest before on few off e in (head, same)
