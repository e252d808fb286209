-- ===== src/Timers/Reactors.antt =====
-- The timer service of applications/timers/win-iocp: the reactors that its shutdown leaves.
use coroutines.Base.{
  ◌≤◌, ◌≡◌, refl, ◌∙◌, true, List, [], ◌∷◌, ◌++◌, not, ◌&&◌, ◌==◌, Bool-cases, inl, inr, arith,
}
use coroutines.Timers.Service.{
  gone, Service, is_closed, post_test, add_inflight_timer, push_request, arm, on_timer_expiration,
  exit_test, load_state, enter_round, dequeue, remove_inflight_timer, complete, leave_reactor,
  close, load_remaining, post_stop,
}
use coroutines.Timers.Steps.{
  Step, posts, counts, pushes, arms, expires, cancels, drains, settles, loads, rounds, takes,
  uncounts, completes, leaves, closes, joins, sends, Reach, start, later,
}

-- The service has shut down: the worker is gone, nothing is in the port and nothing comes to it.
pub record IsSilent (s : Service) : Type 0 where
  pub worker : s.worker ≡ gone
  pub closed : is_closed s.n_active_reactors ≡ true
  pub armed : s.armed ≡ []
  pub packets : s.packets ≡ []
  pub joining : s.joining ≡ 0
  pub sending : s.sending ≡ 0

-- A silent service stays so, and none of its waiting reactors goes on.
record Stays (s t : Service) : Type 0 where
  silent : IsSilent t
  waits : s.idle ≤ t.idle

no_middle : {A : Type 0} (xs : List A) (x : A) (ys : List A) → [] ≡ xs ++ x ∷ ys → ⊥
no_middle [] x ys e = cc e
no_middle (y ∷ xs) x ys e = cc e

Stays-same :
    {s : Service} (t : Service)
    → IsSilent s
    → t.worker ≡ s.worker
    → is_closed t.n_active_reactors ≡ is_closed s.n_active_reactors
    → t.armed ≡ s.armed
    → t.packets ≡ s.packets
    → t.joining ≡ s.joining
    → t.sending ≡ s.sending
    → s.idle ≤ t.idle
    → Stays s t
Stays-same t v worker closed armed packets joining sending waits = record {
  silent = record {
    worker = worker ∙ v.worker;
    closed = closed ∙ v.closed;
    armed = armed ∙ v.armed;
    packets = packets ∙ v.packets;
    joining = joining ∙ v.joining;
    sending = sending ∙ v.sending;
  };
  waits = waits;
}

Step-Stays : {s t : Service} → Step s t → IsSilent s → Stays s t
unfolding post_test add_inflight_timer push_request arm on_timer_expiration exit_test load_state
    enter_round dequeue remove_inflight_timer complete leave_reactor close load_remaining post_stop
Step-Stays {s} posts v = rw v.closed (Stays-same s v refl refl refl refl refl refl (omega arith))
Step-Stays {s} (counts owned ns ctx some) v =
    Stays-same _ v refl refl refl refl refl refl (omega arith)
Step-Stays {s} (pushes before r after e) v =
    Stays-same _ v refl refl refl refl refl refl (omega arith)
Step-Stays {s} (arms r rest on e) v = cc (on, v.worker)
Step-Stays {s} (expires before r after on e) v = absurd (no_middle before r after (rw v.armed at e))
Step-Stays {s} (cancels on flag) v = cc (on, v.worker)
Step-Stays {s} (drains on e) v = cc (on, v.worker)
Step-Stays {s} (settles on) v = cc (on, v.worker)
Step-Stays {s} loads v = Stays-same _ v refl refl refl refl refl refl (omega arith)
Step-Stays {s} (rounds spurious before state after e) v = elim (Bool-cases (is_closed state)) [
  | inl closed ↦ rw closed (Stays-same _ v refl refl refl refl refl refl (omega arith))
  | inr opened ↦ elim (Bool-cases ((s.n_active_reactors == state) && not spurious)) [
    | inl exchanged ↦ absurd (ground (arith, exchanged, opened, v.closed))
    | inr failed ↦ rw (opened, failed) (Stays-same _ v refl refl refl refl refl refl (omega arith))
  ]
]
Step-Stays {s} (takes before p after some e) v =
    absurd (no_middle before p after (rw v.packets at e))
Step-Stays {s} (uncounts before r after e) v =
    Stays-same _ v refl refl refl refl refl refl (omega arith)
Step-Stays {s} (completes before r after e) v =
    Stays-same _ v refl refl refl refl refl refl (omega arith)
Step-Stays {s} (leaves some) v =
    Stays-same _ v refl (ground arith) refl refl refl refl (omega arith)
Step-Stays {s} closes v = rw v.closed (Stays-same s v refl refl refl refl refl refl (omega arith))
Step-Stays {s} (joins on some) v = absurd (omega (arith, v.joining, some))
Step-Stays {s} (sends some) v = absurd (omega (arith, v.sending, some))

Reach-Stays : {s t : Service} → Reach s t → IsSilent s → Stays s t
Reach-Stays start v = record { silent = v; waits = omega arith }
Reach-Stays (later on st) v = Stays-next st (Reach-Stays on v)
  where
    Stays-next : {s t u : Service} → Step t u → Stays s t → Stays s u
    Stays-next st so_far =
        let next = Step-Stays st so_far.silent in
        record { silent = next.silent; waits = omega (arith, so_far.waits, next.waits) }

-- From a state of the closed service in which the worker is gone, no timer is armed, the port is
-- empty and no call of `shutdown` has packets to post, the number of reactors that wait at the
-- port never falls in any interleaving.
pub reactors_stranded : {s t : Service} → IsSilent s → Reach s t → s.idle ≤ t.idle
reactors_stranded v on = (Reach-Stays on v).waits
