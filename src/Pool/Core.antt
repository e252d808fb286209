-- ===== src/Pool/Core.antt =====
-- applications/threadpool/thread_pool.hpp and queue.hpp: the pool, and each atomic access of its
-- operations as one step; the queue's mutex makes each of its operations one.
use coroutines.Base.{
  ℕ, ◌+◌, ◌-◌, ◌%◌, ◌^◌, ◌<◌, ◌≡◌, Bool, List, [], ◌∷◌, ◌++◌, if◌then◌else◌, not, ◌&&◌, ◌==◌,
  replicate,
}
use coroutines.Awaiters.{Pointer, null, awaiter, update_at}

-- Where a coroutine stands: outside of `schedule`, in the loop of `try_awaiter_enter` with its
-- `state`, past it, or in the queue.
pub data Phase : Type 0 where
  running : Phase
  looping : ℕ → Phase
  entered queued : Phase

-- `pool_state`, `n_threads` and `awaiters`, with `null` for SENTINEL_AWAITER; how many calls of
-- `shutdown` have set the flag and not yet pushed; how many workers wait for the queue, have resumed
-- a coroutine, and have left their loop.
pub record Pool : Type 0 where
  pub pool_state : ℕ
  pub n_threads : ℕ
  pub awaiters : List Pointer
  pub phase : ℕ → Phase
  pub closing : ℕ
  pub idle : ℕ
  pub resumed : ℕ
  pub exited : ℕ

abbrev pub new_pool : ℕ → Pool
new_pool n_threads = record {
  pool_state = 0;
  n_threads = n_threads;
  awaiters = [];
  phase = λ w. running;
  closing = 0;
  idle = n_threads;
  resumed = 0;
  exited = 0;
}

-- `(state & CLOSED_FLAG) != 0`
abbrev pub is_closed : ℕ → Bool
is_closed state = state % 2 == 1

-- `try_awaiter_enter` up to its loop.
unfoldable pub load_state : ℕ → Pool → Pool
load_state w p = record p { phase = update_at p.phase w (looping p.pool_state) }

-- One round of the loop of `try_awaiter_enter`. The weak exchange may fail without a reason.
unfoldable pub enter_round : Bool → ℕ → ℕ → Pool → Pool
enter_round spurious w state p =
    if is_closed state
    then record p { phase = update_at p.phase w running }
    else if (p.pool_state == state) && not spurious
    then record p { pool_state = (state + 2) % 2 ^ 32; phase = update_at p.phase w entered }
    else record p { phase = update_at p.phase w (looping p.pool_state) }

-- `awaiters.push(raw_awaiter)` in `await_suspend`.
unfoldable pub push : ℕ → Pool → Pool
push w p = record p { awaiters = p.awaiters ++ awaiter w ∷ []; phase = update_at p.phase w queued }

-- A worker pops the head of the queue: it resumes a coroutine, and leaves its loop at any other
-- entry, which is a sentinel.
unfoldable pub pop : Pointer → List Pointer → Pool → Pool
pop (awaiter w) rest p = record p {
  awaiters = rest;
  phase = update_at p.phase w running;
  idle = p.idle - 1;
  resumed = p.resumed + 1;
}
pop head rest p = record p { awaiters = rest; idle = p.idle - 1; exited = p.exited + 1 }

-- `notify_awaiter_leave`
unfoldable pub notify_awaiter_leave : Pool → Pool
notify_awaiter_leave p = record p {
  pool_state = (p.pool_state + 2 ^ 32 - 2) % 2 ^ 32;
  idle = p.idle + 1;
  resumed = p.resumed - 1;
}

-- `shutdown` up to its test: only the call that sets the flag goes on to push.
unfoldable pub close : Pool → Pool
close p =
    if is_closed p.pool_state
    then p
    else record p { pool_state = p.pool_state + 1; closing = p.closing + 1 }

-- `awaiters.push_batch(sentinels)` in `shutdown`.
unfoldable pub push_batch : Pool → Pool
push_batch p = record p {
  awaiters = p.awaiters ++ replicate p.n_threads null;
  closing = p.closing - 1;
}

-- The steps of any number of coroutines, workers and calls of `shutdown`, interleaved.
pub data Step (p : Pool) : Pool → Type 0 where
  load : (w : ℕ) → p.phase w ≡ running → Step p (load_state w p)
  round :
      (spurious : Bool) (w state : ℕ)
      → p.phase w ≡ looping state
      → Step p (enter_round spurious w state p)
  schedule : (w : ℕ) → p.phase w ≡ entered → Step p (push w p)
  work :
      (head : Pointer) (rest : List Pointer)
      → p.awaiters ≡ head ∷ rest
      → 0 < p.idle
      → Step p (pop head rest p)
  leave : 0 < p.resumed → Step p (notify_awaiter_leave p)
  shutdown : Step p (close p)
  send : 0 < p.closing → Step p (push_batch p)

pub data Reach (p : Pool) : Pool → Type 0 where
  start : Reach p p
  later : {q r : Pool} → Reach p q → Step q r → Reach p r
