-- ===== src/Event/Tests.antt =====
-- The event in short histories: test data, runs and the theorems at them.
use coroutines.Base.{ℕ, suc, ◌≡◌, ◌≢◌, refl, false, List, [], ok, length}
use coroutines.Awaiters.{null, occurrences}
use coroutines.Event.Core.{
  running, suspended, Event, new_event, await_ready, load_state, await_suspend_round, set_exchange,
  resume_round, set_loop, ready, suspend, round, set, resume, Reach, start, later,
}
use coroutines.Event.Sound.{waiting}
use coroutines.Event.Wakeups.{no_lost_wakeup, resumes_suspended, set_loop-suspended}

program : Unit {0}
unfolding await_ready load_state await_suspend_round set_exchange resume_round set_loop
program = tt

-- Coroutine 7 suspends, another thread sets the event and resumes it.
abbrev waits : Event
unfolding program
waits = await_suspend_round false 7 null (load_state 7 (await_ready 7 (new_event false)))

waits-Reach : Reach false waits
unfolding program
waits-Reach = later (later (later start (ready 7 refl)) (suspend 7 refl)) (round false 7 null refl)

abbrev now_set : Event
unfolding program
now_set = set_exchange waits

abbrev all_done : Event
unfolding program
all_done = resume_round [] 7 [] now_set

all_done-Reach : Reach false all_done
unfolding program
all_done-Reach = later (later waits-Reach set) (resume [] 7 [] refl)

no_lost_wakeup_example : all_done.phase 7 ≢ suspended
unfolding program waits now_set all_done
no_lost_wakeup_example = no_lost_wakeup all_done-Reach refl (refl, tt) 7

resumes_suspended_example :
    (now_set.phase 7 ≡ suspended) × ((resume_round [] 7 [] now_set).phase 7 ≡ running)
unfolding program waits now_set
resumes_suspended_example = resumes_suspended [] 7 [] (later waits-Reach set) refl

set_loop-suspended_example :
    (ws : List ℕ) × (set_loop (suc (length ws)) waits.next_awaiter waits.state ≡ ok ws)
    × ((w : ℕ) → occurrences w ws ≡ waiting (waits.phase w))
unfolding program waits
set_loop-suspended_example = set_loop-suspended waits-Reach refl tt
