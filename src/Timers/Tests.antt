-- ===== src/Timers/Tests.antt =====
-- The timer service in short histories: test data, runs and the theorems at them.
use coroutines.Timers.Timerfd.{
  TimeSpec, Timerfd, Driver, over, returns, blocks, await_rounds, reactor, main,
}
use coroutines.Timers.Driver.{main-fires}
use coroutines.Base.{
  ℕ, ◌+◌, ◌%◌, ◌^◌, ◌≤◌, ◌<◌, ◌*◌, ◌≡◌, refl, Bool, true, false, Option, none, some, ltb,
  if◌then◌else◌, ◌⊎◌, ok, List, [], ◌∷◌, arith,
}
use coroutines.Timers.Filetime.{relative, timeout_to_filetime, relative-timeout_to_filetime}
use coroutines.Timers.Service.{
  Request, expiry, stop, Service, new_service, post_test, request_of, add_inflight_timer,
  push_request, arm, on_timer_expiration, on_shutdown_request, drained, exit_test, load_state,
  enter_round, dequeue, remove_inflight_timer, complete, close, load_remaining, post_stop,
}
use coroutines.Timers.Steps.{
  posts, counts, pushes, arms, expires, cancels, drains, settles, loads, rounds, takes, uncounts,
  completes, closes, joins, sends, Reach, start, later,
}
use coroutines.Timers.Account.{sum, in_flight}
use coroutines.Timers.Ends.{accounted, shutdown_complete}
use coroutines.Timers.Late.{late_post_stuck}
use coroutines.Timers.Reactors.{IsSilent, reactors_stranded}

relative-timeout_to_filetime_example :
    (relative (timeout_to_filetime 1234567) * 100 ≤ 1234567)
    × (1234567 < relative (timeout_to_filetime 1234567) * 100 + 100)
    × ((timeout_to_filetime 1234567).low_date_time < 2 ^ 32)
    × ((timeout_to_filetime 1234567).high_date_time < 2 ^ 32)
relative-timeout_to_filetime_example = relative-timeout_to_filetime 1234567 (omega arith)

program : Unit {0}
unfolding post_test request_of add_inflight_timer push_request arm on_timer_expiration exit_test
    load_state enter_round dequeue remove_inflight_timer complete close load_remaining post_stop
program = tt

abbrev timer : Request
timer = request_of true 500 7

-- One request up to the call of its handler, by a reactor whose exchange failed.
abbrev armed_one : Service
unfolding program
armed_one =
    arm timer [] (push_request [] timer [] (add_inflight_timer timer (post_test new_service)))

armed_one-Reach : Reach new_service armed_one
unfolding program
armed_one-Reach =
    later
      (later (later (later start posts) (counts true 500 7 (omega arith)))
        (pushes [] timer [] refl))
      (arms timer [] refl refl)

abbrev entered_one : Service
unfolding program
entered_one = enter_round true [] 0 [] (load_state (on_timer_expiration [] timer [] armed_one))

entered_one-Reach : Reach new_service entered_one
unfolding program armed_one
entered_one-Reach =
    later (later (later armed_one-Reach (expires [] timer [] refl refl)) loads)
      (rounds true [] 0 [] refl)

abbrev called_one : Service
unfolding program
called_one =
    complete [] timer []
      (remove_inflight_timer [] timer [] (dequeue [] (expiry timer) [] entered_one))

called_one-Reach : Reach new_service called_one
unfolding program armed_one entered_one
called_one-Reach =
    later
      (later (later entered_one-Reach (takes [] (expiry timer) [] (omega arith) refl))
        (uncounts [] timer [] refl))
      (completes [] timer [] refl)

accounted_example :
    ((f : Request → ℕ)
      → sum f called_one.accepted
        ≡ in_flight f called_one + sum f called_one.calling + sum f called_one.completed)
    × (called_one.n_inflight_timers ≡ in_flight (λ r. 1) called_one % 2 ^ 32)
accounted_example = accounted called_one-Reach

abbrev settling_one : Service
unfolding program
settling_one = drained (on_shutdown_request (close called_one))

settling_one-Reach : Reach new_service settling_one
unfolding program armed_one entered_one called_one
settling_one-Reach =
    later (later (later called_one-Reach closes) (cancels refl refl)) (drains refl refl)

shutdown_complete_example :
    (settling_one.counted ≡ [])
    × (settling_one.requests ≡ [])
    × (settling_one.armed ≡ [])
    × (settling_one.taken ≡ [])
    × ((f : Request → ℕ)
        → sum f settling_one.accepted ≡ sum f settling_one.calling + sum f settling_one.completed)
unfolding program armed_one entered_one called_one settling_one
shutdown_complete_example = shutdown_complete settling_one-Reach (omega arith) refl refl

-- A call of `post` that passed its test before the service was closed counts and pushes its
-- request after the queue was drained.
abbrev late_one : Service
unfolding program
late_one =
    push_request [] timer []
      (add_inflight_timer timer (drained (on_shutdown_request (close (post_test new_service)))))

late_one-Reach : Reach new_service late_one
unfolding program
late_one-Reach =
    later
      (later
        (later (later (later (later start posts) closes) (cancels refl refl)) (drains refl refl))
        (counts true 500 7 (omega arith)))
      (pushes [] timer [] refl)

late_post_stuck_example :
    ((others : List Request) × ((exit_test late_one).requests ≡ timer ∷ others))
    × ((exit_test late_one).worker ≡ late_one.worker)
unfolding program late_one
late_post_stuck_example =
    late_post_stuck timer [] late_one-Reach refl refl (later start (settles refl)) (omega arith)

-- Two reactors whose exchanges fail are not counted, and shutdown posts one packet.
abbrev stranded : Service
unfolding program
stranded = dequeue [] stop [] (
    post_stop (
      load_remaining (
        exit_test (
          drained (
            on_shutdown_request (
              close (
                enter_round true [] 0 []
                  (load_state (enter_round true [] 0 [] (load_state new_service))))))))))

stranded-Reach : Reach new_service stranded
unfolding program
stranded-Reach =
    later
      (later
        (later
          (later
            (later
              (later
                (later
                  (later (later (later (later start loads) (rounds true [] 0 [] refl)) loads)
                    (rounds true [] 0 [] refl))
                  closes)
                (cancels refl refl))
              (drains refl refl))
            (settles refl))
          (joins refl (omega arith)))
        (sends (omega arith)))
      (takes [] stop [] (omega arith) refl)

stranded-IsSilent : IsSilent stranded
unfolding program stranded
stranded-IsSilent = record {
  worker = refl;
  closed = refl;
  armed = refl;
  packets = refl;
  joining = refl;
  sending = refl;
}

reactors_stranded_example : stranded.idle ≤ (load_state stranded).idle
reactors_stranded_example =
    reactors_stranded {s = stranded} {t = load_state stranded} stranded-IsSilent (later start loads)

stranded_waits : stranded.idle ≡ 1
unfolding program stranded
stranded_waits = refl

-- A timer that is armed or not, and expires whenever it is waited for.
abbrev settime_armed : Bool → TimeSpec → Option Bool
settime_armed armed spec = if ltb spec.ns (10 ^ 9) then some (ltb 0 (spec.sec + spec.ns)) else none

abbrev wait_armed : Bool → Option Bool
wait_armed true = some true
wait_armed false = none

abbrev any_timer : Timerfd Bool
any_timer = record {
  settime = settime_armed;
  wait = wait_armed;
  rejects = λ armed spec large.
      let far : ltb spec.ns (10 ^ 9) ≡ false = ground (arith, large) in rw far refl;
  arms = λ armed spec small some_time.
      let near : ltb spec.ns (10 ^ 9) ≡ true = ground (arith, small) in
      let positive : ltb 0 (spec.sec + spec.ns) ≡ true = ground (arith, some_time) in
      (true, rw (near, positive) refl, (true, refl));
  disarms = λ armed spec no_time.
      let near : ltb spec.ns (10 ^ 9) ≡ true = ground (arith, no_time) in
      let none_left : ltb 0 (spec.sec + spec.ns) ≡ false = ground (arith, no_time) in
      (false, rw (near, none_left) refl, refl);
}

main-fires_example :
    ((0 < 2000000000)
      × ((t : Driver Bool) × (main any_timer false 2000000000 5 ≡ ok (returns t))
          × (t.fired ≡ 5)
          × (t.awaiting_coro ≡ over)))
    ⊎ ((◌≡◌ {A = ℕ} 2000000000 0) × (main any_timer false 2000000000 6 ≡ ok blocks))
main-fires_example = main-fires any_timer false 2000000000 5

no_timeout_run : main any_timer false 0 1 ≡ ok blocks
unfolding main await_rounds reactor
no_timeout_run = refl
