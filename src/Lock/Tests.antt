-- ===== src/Lock/Tests.antt =====
-- The lock in short histories: test data, runs and the theorems at them.
use coroutines.Base.{ℕ, ◌≤◌, ◌≡◌, ◌≢◌, ◌⊎◌, refl, false, ok, err, wild_deref, arith}
use coroutines.Awaiters.{null, marker, update_at}
use coroutines.Lock.Core.{
  running, suspended, Lock, new_lock, load_state, acquire_round, resume_first, release,
  reverse_loop, transfer, enter, round, Reach, start, later,
}
use coroutines.Lock.Sound.{owning}
use coroutines.Lock.Releases.{mutual_exclusion, release_outcome}

program : Unit {0}
unfolding load_state acquire_round resume_first release reverse_loop transfer
program = tt

-- Coroutine 3 takes the lock.
abbrev taken : Lock
unfolding program
taken = acquire_round false 3 null (load_state 3 new_lock)

taken-Reach : Reach taken
unfolding program
taken-Reach = later (later start (enter 3 refl)) (round false 3 null refl)

mutual_exclusion_example : owning (taken.phase 4) ≡ 0
unfolding program taken
mutual_exclusion_example = mutual_exclusion {l = taken} 3 4 taken-Reach (omega arith) (omega arith)

-- Coroutine 4 waits for it.
abbrev contended : Lock
unfolding program
contended = acquire_round false 4 marker (load_state 4 taken)

contended-Reach : Reach contended
unfolding program taken
contended-Reach = later (later taken-Reach (enter 4 refl)) (round false 4 marker refl)

release_outcome_example :
    (((x : ℕ) → contended.phase x ≢ suspended)
      × (release 3 contended
          ≡ ok (record contended { state = null; phase = update_at contended.phase 3 running })))
    ⊎ (((x : ℕ) × (contended.phase x ≡ suspended))
        × (m : Lock) × (release 3 contended ≡ ok m)
        × (enough : ℕ) × ((fuel : ℕ) → enough ≤ fuel → transfer fuel 3 m ≡ err wild_deref))
unfolding program taken contended
release_outcome_example = release_outcome 3 contended-Reach refl
