-- ===== src/Latch/Tests.antt =====
-- The latch in short histories: test data, runs and the theorems at them.
use coroutines.Base.{ℕ, suc, ◌+◌, ◌≡◌, refl, false, List, [], ok, length, arith}
use coroutines.Awaiters.{null, occurrences}
use coroutines.Latch.Core.{
  running, suspended, Call, Latch, new_latch, await_ready, load_head, test_expired, link_awaiter,
  load_count, count_down_round, read_awaiters, resume_round, resume_loop, ready, suspend, test,
  link, call, round, read, Reach, start, later,
}
use coroutines.Latch.Sound.{waiting}
use coroutines.Latch.Wakeups.{resumes_once, resume_loop-suspended, late_awaiter_lost}

program : Unit {0}
unfolding await_ready load_head test_expired link_awaiter load_count count_down_round read_awaiters
    resume_round resume_loop
program = tt

abbrev one : Call
one = record { n = 1; old_count = 1 }

-- A latch of one, where coroutine 7 has tested the count.
abbrev tested : Latch
unfolding program
tested = test_expired 7 null (load_head 7 (await_ready 7 (new_latch 1)))

tested-Reach : Reach (new_latch 1) tested
unfolding program
tested-Reach = later (later (later start (ready 7 refl)) (suspend 7 refl)) (test 7 null refl)

-- It is linked, then the latch is counted down.
abbrev released : Latch
unfolding program
released = count_down_round false [] one [] (load_count 1 (link_awaiter false 7 null tested))

released-Reach : Reach (new_latch 1) released
unfolding program tested
released-Reach =
    later (later (later tested-Reach (link false 7 null refl)) (call 1))
      (round false [] one [] refl (omega arith))

resume_loop-suspended_example :
    (ws : List ℕ) × (resume_loop (suc (length ws)) released.next_awaiter released.awaiters ≡ ok ws)
    × ((w : ℕ) → occurrences w ws ≡ waiting (released.phase w))
unfolding program tested released
resume_loop-suspended_example = resume_loop-suspended released-Reach (omega arith)

abbrev resuming : Latch
unfolding program
resuming = read_awaiters released

resumes_once_example :
    (resuming.phase 7 ≡ suspended)
    × ((resume_round [] 7 [] resuming).phase 7 ≡ running)
    × (resuming.count ≡ 0)
    × (resuming.released + length resuming.resuming ≡ 1)
unfolding program tested released resuming
resumes_once_example = resumes_once [] 7 [] (later released-Reach (read (omega arith))) refl

-- The latch is counted down, the list is read, and then coroutine 7 is linked.
abbrev lost : Latch
unfolding program
lost =
    link_awaiter false 7 null
      (read_awaiters (count_down_round false [] one [] (load_count 1 tested)))

lost-Reach : Reach (new_latch 1) lost
unfolding program tested
lost-Reach =
    later
      (later (later (later tested-Reach (call 1)) (round false [] one [] refl (omega arith)))
        (read (omega arith)))
      (link false 7 null refl)

late_awaiter_lost_example : (load_count 1 lost).phase 7 ≡ suspended
unfolding program tested lost
late_awaiter_lost_example =
    late_awaiter_lost {l = lost} 7
      (record { at_zero = refl; all_read = refl; all_resumed = (refl, tt) }) refl
      (later start (call 1))
