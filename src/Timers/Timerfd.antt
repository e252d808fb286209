-- ===== src/Timers/Timerfd.antt =====
-- applications/timers/nix-timerfd: awaitable_timer.hpp with the waiter and the reactor of
-- awaitable.cpp.
use coroutines.Base.{
  ℕ, zero, suc, ◌+◌, ◌-◌, ◌*◌, ◌/◌, ◌^◌, ◌≤◌, ◌<◌, ◌≡◌, Option, none, some, Result, ok, err,
  wild_deref, ◌>>=◌,
}

-- `it_value` of an `itimerspec`.
pub record TimeSpec : Type 0 where
  pub sec : ℕ
  pub ns : ℕ

-- What the code relies on of a timer of the system that is registered with epoll: `timerfd_settime`,
-- none where it returns -1, and a wait for the timer to be reported, none where that takes forever.
pub record Timerfd (F : Type 0) : Type 0 where
  pub settime : F → TimeSpec → Option F
  pub wait : F → Option F
  pub rejects : (f : F) (spec : TimeSpec) → 10 ^ 9 ≤ spec.ns → settime f spec ≡ none
  pub arms :
      (f : F) (spec : TimeSpec)
      → spec.ns < 10 ^ 9
      → 0 < spec.sec + spec.ns
      → (f' : F) × (settime f spec ≡ some f') × ((g : F) × (wait f' ≡ some g))
  pub disarms :
      (f : F) (spec : TimeSpec)
      → spec.sec + spec.ns ≡ 0
      → (f' : F) × (settime f spec ≡ some f') × (wait f' ≡ none)

-- The constructor's `sec` and `ns`, for a timeout in nanoseconds.
abbrev pub split_timeout : ℕ → TimeSpec
split_timeout timeout =
    let sec = timeout / 10 ^ 9 in record { sec = sec; ns = timeout - sec * 10 ^ 9 }

-- The coroutine `waiter`: suspended with rounds of its loop to come, or over.
pub data Waiter : Type 0 where
  suspended : ℕ → Waiter
  over : Waiter

-- The timer, the coroutine that `async_ctx` refers to, and how often it went on.
pub record Driver (F : Type 0) : Type 0 where
  pub fd : F
  pub awaiting_coro : Waiter
  pub fired : ℕ

-- A wait that never ends is no fault of a pointer.
pub data Ends (A : Type 0) : Type 0 where
  returns : A → Ends A
  blocks : Ends A

module _ {F : Type 0} (timerfd : Timerfd F) (spec : TimeSpec) where
  -- The loop of `waiter` from a `co_await` on: `await_suspend` with `rearm`, which suspends if the
  -- timer was set; otherwise the coroutine goes on at once.
  unfoldable pub await_rounds : ℕ → Driver F → Driver F
  await_rounds zero s = record s { awaiting_coro = over }
  await_rounds (suc n) s = elim (timerfd.settime s.fd spec) [
    | some f ↦ record s { fd = f; awaiting_coro = suspended n }
    | none ↦ await_rounds n (record s { fired = s.fired + 1 })
  ]

  -- `on_timer_expire`: undefined where the coroutine is over.
  expire_at : Waiter → Driver F → Result (Driver F)
  expire_at over s = err wild_deref
  expire_at (suspended n) s = ok (await_rounds n (record s { fired = s.fired + 1 }))

  unfoldable pub on_timer_expire : Driver F → Result (Driver F)
  unfolding expire_at
  on_timer_expire s = expire_at s.awaiting_coro s

  -- `reactor`
  unfoldable pub reactor : ℕ → Driver F → Result (Ends (Driver F))
  reactor zero s = ok (returns s)
  reactor (suc n) s = elim (timerfd.wait s.fd) [
    | none ↦ ok blocks
    | some f ↦ do s' ← on_timer_expire (record s { fd = f }); reactor n s'
  ]

-- `main`: the waiter, then the reactor, on a new timer.
unfoldable pub main : {F : Type 0} → Timerfd F → F → ℕ → ℕ → Result (Ends (Driver F))
main timerfd fd timeout n_expirations =
    let spec = split_timeout timeout in
    reactor timerfd spec n_expirations (
      await_rounds timerfd spec n_expirations (record { fd = fd; awaiting_coro = over; fired = 0 }))
