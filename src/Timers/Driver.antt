-- ===== src/Timers/Driver.antt =====
-- applications/timers/nix-timerfd: how often the timer fires.
use coroutines.Base.{
  ℕ, zero, suc, ◌+◌, ◌*◌, ◌^◌, ◌<◌, ◌≡◌, refl, ap, ◌∙◌, none, some, ok, ◌⊎◌, inl, inr, ltb,
  Bool-cases, arith,
}
use coroutines.Timers.Timerfd.{
  TimeSpec, Timerfd, split_timeout, suspended, over, Driver, returns, blocks, await_rounds,
  on_timer_expire, reactor, main,
}

-- The parts of a timeout.
split_timeout-sum :
    (timeout : ℕ)
    → ((split_timeout timeout).sec * 10 ^ 9 + (split_timeout timeout).ns ≡ timeout)
      × ((split_timeout timeout).ns < 10 ^ 9)
split_timeout-sum timeout = (omega arith, omega arith)

module _ {F : Type 0} (timerfd : Timerfd F) (spec : TimeSpec) where
  await-set :
      (n : ℕ) (s : Driver F) (f : F)
      → timerfd.settime s.fd spec ≡ some f
      → await_rounds timerfd spec (suc n) s ≡ record s { fd = f; awaiting_coro = suspended n }
  unfolding await_rounds
  await-set n s f e = rw (e, await_rounds) refl

  expire-round :
      (n m : ℕ) (f g : F) (fired : ℕ)
      → timerfd.wait f ≡ some g
      → reactor timerfd spec (suc n) (record { fd = f; awaiting_coro = suspended m; fired = fired })
        ≡ reactor timerfd spec n (
            await_rounds timerfd spec m
              (record { fd = g; awaiting_coro = suspended m; fired = fired + 1 }))
  unfolding reactor on_timer_expire
  expire-round n m f g fired e = rw (e, reactor) refl

  reactor-fires :
      (n : ℕ) (s : Driver F)
      → spec.ns < 10 ^ 9
      → 0 < spec.sec + spec.ns
      → (t : Driver F) × (reactor timerfd spec n (await_rounds timerfd spec n s) ≡ ok (returns t))
        × (t.fired ≡ s.fired + n)
        × (t.awaiting_coro ≡ over)
  unfolding await_rounds reactor
  reactor-fires zero s small some_time =
      (record s { awaiting_coro = over }, refl, omega arith, refl)
  reactor-fires (suc n) s small some_time =
      let (f, set, (g, expired)) = timerfd.arms s.fd spec small some_time in
      let (t, run, total, ended) =
        reactor-fires n (record { fd = g; awaiting_coro = suspended n; fired = s.fired + 1 }) small
          some_time in
      (
        t,
        ap (reactor timerfd spec (suc n)) (await-set n s f set)
            ∙ expire-round n n f g s.fired expired
            ∙ run,
        omega (arith, total),
        ended,
      )

  reactor-never :
      (n : ℕ) (f : F) (m fired : ℕ)
      → timerfd.wait f ≡ none
      → reactor timerfd spec (suc n) (record { fd = f; awaiting_coro = suspended m; fired = fired })
        ≡ ok blocks
  unfolding reactor
  reactor-never n f m fired e = rw (e, reactor) refl

-- For a timer of the system that is reported once it is set to a time that is not 0, and never
-- after it is set to 0: with a positive timeout in nanoseconds the program of awaitable.cpp ends
-- without a fault for every number of expirations, the coroutine went on that often, and is over;
-- with a timeout of 0, and one expiration or more, the reactor waits forever.
pub main-fires :
    {F : Type 0} (timerfd : Timerfd F) (fd : F) (timeout n_expirations : ℕ)
    → ((0 < timeout)
        × ((t : Driver F) × (main timerfd fd timeout n_expirations ≡ ok (returns t))
            × (t.fired ≡ n_expirations)
            × (t.awaiting_coro ≡ over)))
      ⊎ ((timeout ≡ 0) × (main timerfd fd timeout (suc n_expirations) ≡ ok blocks))
unfolding main await_rounds reactor
main-fires timerfd fd timeout n =
    let spec = split_timeout timeout in
    let (sum, small) = split_timeout-sum timeout in
    elim (Bool-cases (ltb 0 timeout)) [
      | inl some_time ↦
          let positive : 0 < timeout = ground (arith, some_time) in
          let (t, run, total, ended) =
            reactor-fires timerfd spec n (record { fd = fd; awaiting_coro = over; fired = 0 }) small
              (omega (arith, sum, positive)) in
          inl (positive, (t, run, omega (arith, total), ended))
      | inr no_time ↦
          let zero_time : timeout ≡ 0 = ground (arith, no_time) in
          let (f, set, never) = timerfd.disarms fd spec (omega (arith, sum, zero_time)) in
          inr (
            zero_time,
            ap (reactor timerfd spec (suc n)) (await-set timerfd spec n _ f set)
                ∙ reactor-never timerfd spec n f n 0 never,
          )
    ]
