-- ===== src/Timers/Service.antt =====
-- applications/timers/win-iocp/timer_service.hpp, queue.hpp and timer_request.hpp: the timer service
-- and each atomic access of its operations as one step.
use coroutines.Base.{
  ℕ, ◌+◌, ◌-◌, ◌%◌, ◌^◌, Bool, true, false, List, [], ◌∷◌, ◌++◌, if◌then◌else◌, not, ◌&&◌, ◌==◌,
}
use coroutines.Timers.Filetime.{Filetime, timeout_to_filetime}

-- `timer_request`; the completion handler is known by its context.
pub record Request : Type 0 where
  pub timeout : Filetime
  pub owned_timer : Bool
  pub ctx : ℕ

-- A completion packet: the expiry of a timer, or one with SHUTDOWN_KEY.
pub data Packet : Type 0 where
  expiry : Request → Packet
  stop : Packet

-- The worker thread serves the queue in `process_requests`; in `on_shutdown_request` it drains the
-- queue, then waits for the timers in flight, and exits.
pub data Worker : Type 0 where
  serving draining settling gone : Worker

-- The fields of `timer_service`; `armed` are the timers that are set, `packets` the completions
-- that were posted to the port and not taken. Calls of `post` that have passed their test
-- (`allowed`), and have counted their request (`counted`). Reactors in `try_enter_reactor` with
-- their `state` (`entering`), waiting at the port (`idle`), with a request before and after they
-- count it off (`taken`, `calling`), and past their loop (`leaving`). A call of `shutdown` that
-- waits for the worker (`joining`) and the packets it has yet to post (`sending`). The requests
-- that were counted, and those whose handler was called, so far.
pub record Service : Type 0 where
  pub n_active_reactors : ℕ
  pub n_inflight_timers : ℕ
  pub requests : List Request
  pub armed : List Request
  pub packets : List Packet
  pub worker : Worker
  pub cancelled : Bool
  pub allowed : ℕ
  pub counted : List Request
  pub entering : List ℕ
  pub idle : ℕ
  pub taken : List Request
  pub calling : List Request
  pub leaving : ℕ
  pub joining : ℕ
  pub sending : ℕ
  pub accepted : List Request
  pub completed : List Request

-- The constructor; the worker is taken to start after it.
abbrev pub new_service : Service
new_service = record {
  n_active_reactors = 0;
  n_inflight_timers = 0;
  requests = [];
  armed = [];
  packets = [];
  worker = serving;
  cancelled = false;
  allowed = 0;
  counted = [];
  entering = [];
  idle = 0;
  taken = [];
  calling = [];
  leaving = 0;
  joining = 0;
  sending = 0;
  accepted = [];
  completed = [];
}

-- `(state & CLOSED_FLAG) != 0`
abbrev pub is_closed : ℕ → Bool
is_closed state = state % 2 == 1

-- `post` up to its test; `post_with_handle` and `await_suspend` begin in the same way.
unfoldable pub post_test : Service → Service
post_test s = if is_closed s.n_active_reactors then s else record s { allowed = s.allowed + 1 }

-- The request of `post` and `await_suspend`, and the one of the calls with a timer of the user.
unfoldable pub request_of : (owned : Bool) (ns ctx : ℕ) → Request
request_of owned ns ctx = record {
  timeout = timeout_to_filetime ns;
  owned_timer = owned;
  ctx = ctx;
}

-- `add_inflight_timer`
unfoldable pub add_inflight_timer : Request → Service → Service
add_inflight_timer r s = record s {
  n_inflight_timers = (s.n_inflight_timers + 1) % 2 ^ 32;
  allowed = s.allowed - 1;
  counted = r ∷ s.counted;
  accepted = r ∷ s.accepted;
}

-- `requests.push(req)` by one of the calls that have counted their request.
unfoldable pub push_request :
    (before : List Request) (r : Request) (after : List Request) → Service → Service
push_request before r after s = record s {
  requests = s.requests ++ r ∷ [];
  counted = before ++ after;
}

-- `requests.pop` or `try_pop`, and `SetWaitableTimer`.
unfoldable pub arm : Request → List Request → Service → Service
arm r rest s = record s { requests = rest; armed = r ∷ s.armed }

-- `on_timer_expiration`
unfoldable pub on_timer_expiration :
    (before : List Request) (r : Request) (after : List Request) → Service → Service
on_timer_expiration before r after s = record s {
  armed = before ++ after;
  packets = expiry r ∷ s.packets;
}

-- `on_shutdown_request`: its start, the end of its first loop, and the test of the second.
abbrev pub on_shutdown_request : Service → Service
on_shutdown_request s = record s { worker = draining; cancelled = false }

abbrev pub drained : Service → Service
drained s = record s { worker = settling }

unfoldable pub exit_test : Service → Service
exit_test s = if s.n_inflight_timers == 0 then record s { worker = gone } else s

-- `try_enter_reactor` up to its loop, and one round of the loop, which goes on while the exchange
-- succeeds. The weak exchange may fail without a reason.
unfoldable pub load_state : Service → Service
load_state s = record s { entering = s.n_active_reactors ∷ s.entering }

unfoldable pub enter_round :
    Bool → (before : List ℕ) (state : ℕ) (after : List ℕ) → Service → Service
enter_round spurious before state after s =
    if is_closed state
    then record s { entering = before ++ after }
    else if (s.n_active_reactors == state) && not spurious
    then record s { n_active_reactors = (state + 2) % 2 ^ 32 }
    else record s { entering = before ++ after; idle = s.idle + 1 }

-- `GetQueuedCompletionStatus` in `run`, and the test for SHUTDOWN_KEY.
unfoldable pub dequeue :
    (before : List Packet) (p : Packet) (after : List Packet) → Service → Service
dequeue before (expiry r) after s = record s {
  packets = before ++ after;
  idle = s.idle - 1;
  taken = r ∷ s.taken;
}
dequeue before stop after s = record s {
  packets = before ++ after;
  idle = s.idle - 1;
  leaving = s.leaving + 1;
}

unfoldable pub remove_inflight_timer :
    (before : List Request) (r : Request) (after : List Request) → Service → Service
remove_inflight_timer before r after s = record s {
  n_inflight_timers = (s.n_inflight_timers + 2 ^ 32 - 1) % 2 ^ 32;
  taken = before ++ after;
  calling = r ∷ s.calling;
}

-- `req->completion_handler(req->ctx)`, after which the reactor waits again.
unfoldable pub complete :
    (before : List Request) (r : Request) (after : List Request) → Service → Service
complete before r after s = record s {
  calling = before ++ after;
  completed = r ∷ s.completed;
  idle = s.idle + 1;
}

unfoldable pub leave_reactor : Service → Service
leave_reactor s = record s {
  n_active_reactors = (s.n_active_reactors + 2 ^ 32 - 2) % 2 ^ 32;
  leaving = s.leaving - 1;
}

-- `shutdown` up to the wait for the worker.
unfoldable pub close : Service → Service
close s = if is_closed s.n_active_reactors then s else record s {
  n_active_reactors = s.n_active_reactors + 1;
  cancelled = true;
  joining = s.joining + 1;
}

-- `shutdown` after the wait, up to its loop, and one round of the loop.
unfoldable pub load_remaining : Service → Service
load_remaining s = record s { joining = s.joining - 1; sending = s.sending + s.n_active_reactors }

unfoldable pub post_stop : Service → Service
post_stop s = record s { packets = stop ∷ s.packets; sending = s.sending - 1 }
