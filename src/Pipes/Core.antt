-- ===== src/Pipes/Core.antt =====
-- applications/pipes/nix-pipe: io_context.hpp, ioc_awaiter_base.hpp and the awaiters of
-- readable_pipe.hpp and writeable_pipe.hpp.
use coroutines.Base.{
  ℕ, ◌≡◌, ◌≢◌, Bool, true, false, ◌||◌, Option, none, some, List, [], ◌∷◌, Result, ok, err,
  null_deref, wild_deref, runtime_error, ◌>>=◌, ltb, if◌then◌else◌,
}
use coroutines.Awaiters.{update_at}

-- The flags of an `epoll_event` that the code sets or reads.
pub record Flags : Type 0 where
  pub epollin : Bool
  pub epollout : Bool
  pub epollhup : Bool
  pub epollerr : Bool

abbrev pub no_flags : Flags
no_flags = record { epollin = false; epollout = false; epollhup = false; epollerr = false }

-- `epoll_event`, with an awaiter's address or null.
pub record Event : Type 0 where
  pub events : Flags
  pub ptr : Option ℕ

-- What the code relies on of epoll, an instance of which is a value of `E`: `epoll_ctl`, none where
-- it returns -1, and the events that a descriptor is registered with.
pub record Epoll (E : Type 0) : Type 1 where
  pub registered : E → ℕ → Option Event
  pub add : E → ℕ → Event → Option E
  pub modify : E → ℕ → Event → Option E
  pub delete : E → ℕ → Option E
  pub add_sets :
      {e e' : E} {fd : ℕ} {ev : Event} → add e fd ev ≡ some e' → registered e' fd ≡ some ev
  pub add_others :
      {e e' : E} {fd : ℕ} {ev : Event} (x : ℕ)
      → add e fd ev ≡ some e'
      → x ≢ fd
      → registered e' x ≡ registered e x
  pub modify_sets :
      {e e' : E} {fd : ℕ} {ev : Event} → modify e fd ev ≡ some e' → registered e' fd ≡ some ev
  pub modify_others :
      {e e' : E} {fd : ℕ} {ev : Event} (x : ℕ)
      → modify e fd ev ≡ some e'
      → x ≢ fd
      → registered e' x ≡ registered e x
  pub delete_clears : {e e' : E} {fd : ℕ} → delete e fd ≡ some e' → registered e' fd ≡ none
  pub delete_others :
      {e e' : E} {fd : ℕ} (x : ℕ)
      → delete e fd ≡ some e'
      → x ≢ fd
      → registered e' x ≡ registered e x

-- An event that `epoll_wait` may report for a descriptor: only flags that it is registered with, and
-- EPOLLHUP and EPOLLERR always.
pub record IsReported {E : Type 0} (epoll : Epoll E) (instance_ : E) (event : Event) : Type 0 where
  pub fd : ℕ
  pub wanted : Event
  pub is_registered : epoll.registered instance_ fd ≡ some wanted
  pub same_ptr : event.ptr ≡ wanted.ptr
  pub in_wanted : event.events.epollin ≡ true → wanted.events.epollin ≡ true
  pub out_wanted : event.events.epollout ≡ true → wanted.events.epollout ≡ true

pub data IoInterest : Type 0 where
  read write : IoInterest

-- Where the coroutine of an awaiter stands: it runs, is suspended, or was resumed with the
-- `error_code` of its awaiter.
pub data Phase : Type 0 where
  running suspended : Phase
  resumed : ℕ → Phase

-- `io_context` with its `instance`, and the awaiters by their addresses.
pub record IoContext (E : Type 0) : Type 0 where
  pub epoll_instance : E
  pub phase : ℕ → Phase

-- A call of the system that returns -1 is thrown as an exception.
abbrev pub checked : {A : Type 0} → Option A → Result A
checked none = err runtime_error
checked (some a) = ok a

abbrev pub event_flags : IoInterest → Flags
event_flags read = record no_flags { epollin = true }
event_flags write = record no_flags { epollout = true }

-- What `write` answers: that it would block, an error, or a number of bytes.
pub data Written : Type 0 where
  would_block failed : Written
  wrote : ℕ → Written

module _ {E : Type 0} (epoll : Epoll E) where
  unfoldable pub register_handle : ℕ → IoInterest → IoContext E → Result (IoContext E)
  register_handle fd interest s = do
    e ←
        checked
          (epoll.add s.epoll_instance fd (record { events = event_flags interest; ptr = none }))
    ok (record s { epoll_instance = e })

  -- `unregister_handle`, where the descriptor is known.
  unfoldable pub unregister_handle : ℕ → IoContext E → Result (IoContext E)
  unregister_handle fd s = do
    e ← checked (epoll.delete s.epoll_instance fd)
    ok (record s { epoll_instance = e })

  -- `ev` is value-initialised, so its events are none.
  unfoldable pub set_awaiter : ℕ → ℕ → IoContext E → Result (IoContext E)
  set_awaiter fd awaiter s = do
    e ←
        checked
          (epoll.modify s.epoll_instance fd (record { events = no_flags; ptr = some awaiter }))
    ok (record s { epoll_instance = e })

  -- `await_suspend` of `read_some`.
  unfoldable pub await_suspend_read : ℕ → ℕ → IoContext E → Result (IoContext E)
  await_suspend_read fd awaiter s = do
    s' ← set_awaiter fd awaiter s
    ok (record s' { phase = update_at s'.phase awaiter suspended })

  -- `await_suspend` of `write_some`: after a synchronous completion the coroutine goes on.
  unfoldable pub await_suspend_write : ℕ → ℕ → Written → IoContext E → Result (IoContext E)
  await_suspend_write fd awaiter answer s = do
    s' ← set_awaiter fd awaiter s
    elim answer [
      | would_block ↦ ok (record s' { phase = update_at s'.phase awaiter suspended })
      | failed ↦ err runtime_error
      | wrote n ↦ ok s'
    ]

-- `me->awaiting_coro.resume()`: undefined where the coroutine is not suspended.
abbrev pub resume_awaiting : Phase → ℕ → Result Phase
resume_awaiting running error_code = err wild_deref
resume_awaiting suspended error_code = ok (resumed error_code)
resume_awaiting (resumed c) error_code = err wild_deref

module _ {E : Type 0} where
  unfoldable pub io_ready_callback : Option ℕ → ℕ → IoContext E → Result (IoContext E)
  io_ready_callback none error_code s = err null_deref
  io_ready_callback (some me) error_code s = do
    p ← resume_awaiting (s.phase me) error_code
    ok (record s { phase = update_at s.phase me p })

  -- A round of `process_n_events`, and the loop.
  unfoldable pub process_event : Event → IoContext E → Result (IoContext E)
  process_event event s =
      if event.events.epollin || event.events.epollout
      then io_ready_callback event.ptr 0 s
      else if event.events.epollhup || event.events.epollerr
      then io_ready_callback event.ptr 1 s
      else ok s

  unfoldable pub process_n_events : List Event → IoContext E → Result (IoContext E)
  process_n_events [] s = ok s
  process_n_events (event ∷ events) s = do s' ← process_event event s; process_n_events events s'

-- `await_resume` of both awaiters, with what the system call after the test answers.
abbrev pub await_resume : ℕ → Option ℕ → Result ℕ
await_resume bytes_xfer answer = if ltb 0 bytes_xfer then ok bytes_xfer else checked answer
