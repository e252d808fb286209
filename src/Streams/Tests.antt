-- ===== src/Streams/Tests.antt =====
-- Tests of the ring of handles and of the throttler.
use mathlib.Core.List.{Perm}
use coroutines.Base.{
  ℕ, zero, suc, ◌≡◌, refl, false, some, List, [], ◌∷◌, Result, ok, ◌>>=◌, Returns, arith,
}
use coroutines.Streams.Ring.{new_ring, schedule, remove_next_task, has_next}
use coroutines.Streams.Throttle.{Turn, suspends, returns, resume, spawn, spawn_all, run}
use coroutines.Streams.Turns.{Job, done, more, frames, outs, Sound}
use coroutines.Streams.Complete.{new_streams, streams-Perm}
use coroutines.Streams.Fifo.{Call, puts, takes, ring_calls, queue_calls, fifo}

abbrev calls : List (Call ℕ)
calls = puts 7 ∷ puts 8 ∷ takes ∷ puts 9 ∷ takes ∷ takes ∷ puts 5 ∷ takes ∷ []

calls_queue : queue_calls 3 calls [] ≡ some (7 ∷ 8 ∷ 9 ∷ 5 ∷ [])
unfolding queue_calls
calls_queue = refl

fifo_example : ring_calls calls (new_ring 3) ≡ ok (7 ∷ 8 ∷ 9 ∷ 5 ∷ [])
fifo_example = fifo 3 calls (7 ∷ 8 ∷ 9 ∷ 5 ∷ []) (omega arith) calls_queue

-- A coroutine that suspends as often as its frame says.
abbrev counts_down : ℕ → Result (Turn ℕ ℕ)
counts_down zero = ok (returns 0)
counts_down (suc n) = ok (suspends n)

abbrev two_jobs : List (Job ℕ ℕ)
two_jobs = record { task = 2; out = 0; steps = 2 } ∷ record { task = 0; out = 0; steps = 0 } ∷ []

two_jobs-Sound : Sound counts_down two_jobs
two_jobs-Sound = (more refl (more refl (done refl)), (done refl, tt))

streams_run :
    Returns
      (do s ← spawn_all counts_down 5 (2 ∷ 0 ∷ []) (new_streams 3 1); run counts_down 3 5 s)
      λ s. s.results ≡ 0 ∷ 0 ∷ []
unfolding spawn_all spawn resume run new_streams new_ring schedule remove_next_task
streams_run = (_, refl, refl)

streams-Perm_example :
    Returns
      (do s ← spawn_all counts_down 5 (frames two_jobs) (new_streams 3 1); run counts_down 3 5 s)
      λ s. Perm s.results (outs two_jobs) × (s.limit ≡ 1) × (has_next s.ring ≡ false)
streams-Perm_example =
    streams-Perm counts_down 3 1 3 5 two_jobs two_jobs-Sound (omega arith) (omega arith)
      (omega arith) (omega arith) (omega arith)
