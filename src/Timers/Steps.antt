-- ===== src/Timers/Steps.antt =====
-- The interleavings of the timer service of applications/timers/win-iocp: any number of calls that
-- post, of reactors and of calls of `shutdown`, and the worker. Timers expire, and the port hands
-- out packets, in any order.
use coroutines.Base.{ℕ, ◌<◌, ◌≡◌, Bool, true, false, List, [], ◌∷◌, ◌++◌}
use coroutines.Timers.Service.{
  Request, Packet, Worker, serving, draining, settling, gone, Service, post_test, request_of,
  add_inflight_timer, push_request, arm, on_timer_expiration, on_shutdown_request, drained,
  exit_test, load_state, enter_round, dequeue, remove_inflight_timer, complete, leave_reactor,
  close, load_remaining, post_stop,
}

-- The worker takes requests from the queue.
abbrev pub takes_requests : Worker → Bool
takes_requests serving = true
takes_requests draining = true
takes_requests settling = false
takes_requests gone = false

abbrev pub is_gone : Worker → Bool
is_gone serving = false
is_gone draining = false
is_gone settling = false
is_gone gone = true

pub data Step (s : Service) : Service → Type 0 where
  posts : Step s (post_test s)
  counts :
      (owned : Bool) (ns ctx : ℕ)
      → 0 < s.allowed
      → Step s (add_inflight_timer (request_of owned ns ctx) s)
  pushes :
      (before : List Request) (r : Request) (after : List Request)
      → s.counted ≡ before ++ r ∷ after
      → Step s (push_request before r after s)
  arms :
      (r : Request) (rest : List Request)
      → takes_requests s.worker ≡ true
      → s.requests ≡ r ∷ rest
      → Step s (arm r rest s)
  expires :
      (before : List Request) (r : Request) (after : List Request)
      → is_gone s.worker ≡ false
      → s.armed ≡ before ++ r ∷ after
      → Step s (on_timer_expiration before r after s)
  cancels : s.worker ≡ serving → s.cancelled ≡ true → Step s (on_shutdown_request s)
  drains : s.worker ≡ draining → s.requests ≡ [] → Step s (drained s)
  settles : s.worker ≡ settling → Step s (exit_test s)
  loads : Step s (load_state s)
  rounds :
      (spurious : Bool) (before : List ℕ) (state : ℕ) (after : List ℕ)
      → s.entering ≡ before ++ state ∷ after
      → Step s (enter_round spurious before state after s)
  takes :
      (before : List Packet) (p : Packet) (after : List Packet)
      → 0 < s.idle
      → s.packets ≡ before ++ p ∷ after
      → Step s (dequeue before p after s)
  uncounts :
      (before : List Request) (r : Request) (after : List Request)
      → s.taken ≡ before ++ r ∷ after
      → Step s (remove_inflight_timer before r after s)
  completes :
      (before : List Request) (r : Request) (after : List Request)
      → s.calling ≡ before ++ r ∷ after
      → Step s (complete before r after s)
  leaves : 0 < s.leaving → Step s (leave_reactor s)
  closes : Step s (close s)
  joins : s.worker ≡ gone → 0 < s.joining → Step s (load_remaining s)
  sends : 0 < s.sending → Step s (post_stop s)

pub data Reach (s : Service) : Service → Type 0 where
  start : Reach s s
  later : {t u : Service} → Reach s t → Step t u → Reach s u
