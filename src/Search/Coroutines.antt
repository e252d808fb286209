-- ===== src/Search/Coroutines.antt =====
-- applications/binary-search/coroutine.hpp: the search as a coroutine, and the lookups by
-- several of them at a time.
use mathlib.Core.List.{foldr}
use coroutines.Base.Int.{ℤ, ltb_ℤ, eqb_ℤ}
use coroutines.Base.{
  ℕ, suc, ◌+◌, ◌-◌, ◌/◌, Bool, true, false, List, [], ◌∷◌, Result, ok, err, assertion, ◌>>=◌, at,
  length, ltb, ◌==◌, if◌then◌else◌,
}
use coroutines.Streams.Throttle.{Turn, suspends, returns, Streams}
use coroutines.Search.Infra.{new_throttler, spawn_task, run_queue}

-- Where the coroutine is suspended: at its start, or at the prefetch of `first[len / 2]`.
pub data SearchFrame : Type 0 where
  begun probing : (first len : ℕ) (key : ℤ) → SearchFrame

-- The test of the loop, and its first lines up to the prefetch.
abbrev pub to_prefetch : ℕ → ℕ → ℤ → Turn SearchFrame Bool
to_prefetch first len key = if ltb 0 len then suspends (probing first len key) else returns false

-- `coro_binary_search` from one suspension to the next. The callbacks count a key as found, `true`,
-- or not found.
unfoldable pub coro_binary_search : List ℤ → SearchFrame → Result (Turn SearchFrame Bool)
coro_binary_search items (begun first len key) = ok (to_prefetch first len key)
coro_binary_search items (probing first len key) = do
  let half = len / 2
  let middle = first + half
  x ← at items middle
  let below = ltb_ℤ x key
  let first' = if below then middle + 1 else first
  let len' = if below then len - half - 1 else half
  if eqb_ℤ x key then ok (returns true) else ok (to_prefetch first' len' key)

-- `found_count` and `not_found_count`, which start at zero.
abbrev pub found_count : List Bool → ℕ
found_count = foldr (λ b n. if b then suc n else n) 0

abbrev pub not_found_count : List Bool → ℕ
not_found_count = foldr (λ b n. if b then n else suc n) 0

-- The loop of `coro_multi_lookup` over the keys.
unfoldable pub spawn_lookups :
    ℕ → List ℤ → List ℤ → Streams SearchFrame Bool → Result (Streams SearchFrame Bool)
spawn_lookups fuel dataset [] t = ok t
spawn_lookups fuel dataset (key ∷ lookups) t = do
  t' ← spawn_task (coro_binary_search dataset) fuel (begun 0 (length dataset) key) t
  spawn_lookups fuel dataset lookups t'

-- The queue is empty and the counters are zero at the start. The result is read before the
-- throttler's destructor runs the queue again.
unfoldable pub coro_multi_lookup : (rounds fuel n_streams : ℕ) → List ℤ → List ℤ → Result ℕ
coro_multi_lookup rounds fuel n_streams dataset lookups = do
  spawned ← spawn_lookups fuel dataset lookups (new_throttler n_streams)
  ran ← run_queue (coro_binary_search dataset) rounds fuel spawned
  let tmp = found_count ran.results
  checked ← if (tmp + not_found_count ran.results) == length lookups then ok tmp else err assertion
  destroyed ← run_queue (coro_binary_search dataset) rounds fuel ran
  ok checked
