-- ===== src/Streams/Ring.antt =====
-- applications/map/scheduler.hpp: a ring of coroutine handles. `scheduler_queue` of
-- applications/binary-search/coro_infra.hpp is the same ring with 256 places.
use coroutines.Base.{
  ℕ, ◌+◌, ◌%◌, Bool, true, false, List, Result, ok, err, null_deref, wild_deref, ◌>>=◌, at, set,
  replicate, ◌==◌, if◌then◌else◌,
}

-- One place of the buffer: a null handle, the handle of a frame that waits, or a handle that was
-- taken before. A waiting frame is named by no other handle, so the place holds the frame itself.
-- The buffer keeps a taken handle; what it refers to then is no longer known here.
pub data Slot (T : Type 0) : Type 0 where
  null_handle stale : Slot T
  waiting : T → Slot T

-- `StaticQueueScheduler<QueueDepth>`
pub record Ring (T : Type 0) : Type 0 where
  pub depth : ℕ
  pub head : ℕ
  pub tail : ℕ
  pub buffer : List (Slot T)

module _ {T : Type 0} where
  unfoldable pub new_ring : ℕ → Ring T
  new_ring depth = record {
    depth = depth;
    head = 0;
    tail = 0;
    buffer = replicate depth null_handle;
  }

  unfoldable pub schedule : T → Ring T → Ring T
  schedule handle r = record r {
    buffer = set r.buffer r.head (waiting handle);
    head = (r.head + 1) % r.depth;
  }

  -- To resume a null handle, or one whose frame went on since, is undefined behaviour.
  abbrev pub resumable : Slot T → Result T
  resumable null_handle = err null_deref
  resumable stale = err wild_deref
  resumable (waiting frame) = ok frame

  -- `remove_next_task()` with the `resume()` that each of its callers makes.
  unfoldable pub remove_next_task : Ring T → Result (T × Ring T)
  remove_next_task r = do
    slot ← at r.buffer r.tail
    frame ← resumable slot
    ok (frame, record r { buffer = set r.buffer r.tail stale; tail = (r.tail + 1) % r.depth })

  -- `head != tail`, the test of `try_remove_next_task`.
  abbrev pub has_next : Ring T → Bool
  has_next r = if r.head == r.tail then false else true
