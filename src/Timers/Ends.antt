-- ===== src/Timers/Ends.antt =====
-- The timer service of applications/timers/win-iocp: what its shutdown waits for, and what it leaves.
use coroutines.Base.{
  ℕ, ◌+◌, ◌%◌, ◌^◌, ◌<◌, ◌≡◌, refl, sym, ap, ◌∙◌, List, [], ◌∷◌, length, ◌==◌, Bool-cases, inl, inr,
  arith,
}
use coroutines.Timers.Service.{
  Request, Packet, expiry, stop, settling, gone, Service, new_service, exit_test,
}
use coroutines.Timers.Steps.{Reach}
use coroutines.Timers.Account.{sum, sum_packets, in_flight, Reach-IsSound}

-- Along any interleaving of calls that post, the worker, reactors and calls of `shutdown`, with
-- timers and packets in any order, each accepted request lies in exactly one place, or its handler
-- was called once: for every measure of requests, its sum over the accepted ones is the sum over
-- the counted, queued, armed, posted and taken ones, those whose handler is about to be called,
-- and the completed ones; and `n_inflight_timers` is the number in the first five places modulo 2
-- ^ 32.
pub accounted :
    {s : Service}
    → Reach new_service s
    → ((f : Request → ℕ) → sum f s.accepted ≡ in_flight f s + sum f s.calling + sum f s.completed)
      × (s.n_inflight_timers ≡ in_flight (λ r. 1) s % 2 ^ 32)
accounted r = let v = Reach-IsSound r in (v.accounts, v.inflight)

pub sum-length : (rs : List Request) → sum (λ r. 1) rs ≡ length rs
sum-length [] = refl
sum-length (r ∷ rs) = omega (arith, sum-length rs)

nothing : (rs : List Request) → sum (λ r. 1) rs ≡ 0 → rs ≡ []
nothing [] e = refl
nothing (r ∷ rs) e = absurd (omega (arith, e))

nothing_packets :
    (f : Request → ℕ) (ps : List Packet) → sum_packets (λ r. 1) ps ≡ 0 → sum_packets f ps ≡ 0
nothing_packets f [] e = refl
nothing_packets f (expiry r ∷ ps) e = absurd (omega (arith, e))
nothing_packets f (stop ∷ ps) e = nothing_packets f ps e

exit_test-gone :
    (s : Service) → s.worker ≡ settling → (exit_test s).worker ≡ gone → s.n_inflight_timers ≡ 0
unfolding exit_test
exit_test-gone s on e = elim (Bool-cases (s.n_inflight_timers == 0)) [
  | inl none_left ↦ ground (arith, none_left)
  | inr left ↦ absurd (settling_gone (sym on ∙ (rw left at e)))
]
  where
    settling_gone : settling ≡ gone → ⊥
    settling_gone e = cc e

-- Along any interleaving of calls that post, the worker, reactors and calls of `shutdown` of the
-- timer service with fewer than 2 ^ 32 accepted requests, when the worker's test lets it exit, no
-- request is counted and not pushed, in the queue, armed or taken and not counted off: every
-- accepted request is completed or its handler is about to be called.
pub shutdown_complete :
    {s : Service}
    → Reach new_service s
    → length s.accepted < 2 ^ 32
    → s.worker ≡ settling
    → (exit_test s).worker ≡ gone
    → (s.counted ≡ [])
      × (s.requests ≡ [])
      × (s.armed ≡ [])
      × (s.taken ≡ [])
      × ((f : Request → ℕ) → sum f s.accepted ≡ sum f s.calling + sum f s.completed)
shutdown_complete {s} r few on exits =
    let v = Reach-IsSound r in
    let one : Request → ℕ = λ r. 1 in
    let total : in_flight one s ≡ 0 =
      omega (
        arith,
        v.inflight,
        exit_test-gone s on exits,
        v.accounts one,
        sum-length s.accepted,
        few,
      ) in
    let counted : s.counted ≡ [] = nothing s.counted (omega (arith, total)) in
    let requests : s.requests ≡ [] = nothing s.requests (omega (arith, total)) in
    let armed : s.armed ≡ [] = nothing s.armed (omega (arith, total)) in
    let taken : s.taken ≡ [] = nothing s.taken (omega (arith, total)) in
    (
      counted,
      requests,
      armed,
      taken,
      λ f. omega (
        arith,
        v.accounts f,
        ap (sum f) counted,
        ap (sum f) requests,
        ap (sum f) armed,
        ap (sum f) taken,
        nothing_packets f s.packets (omega (arith, total)),
      ),
    )
