-- ===== src/Latch/Core.antt =====
-- primitives/async-latch/async_latch.hpp: the latch, and each atomic access of its operations as
-- one step.
use coroutines.Base.{
  ℕ, ◌+◌, ◌-◌, ◌<◌, ◌≡◌, Bool, List, [], ◌∷◌, ◌++◌, Result, ok, err, no_fuel, null_deref, ◌>>=◌,
  if◌then◌else◌, not, ◌&&◌, suc, zero, ltb, ◌==◌,
}
use coroutines.Awaiters.{Pointer, null, marker, awaiter, same, update_at}

-- Where the coroutine that owns an awaiter stands: outside of `co_await`, past `await_ready`, in
-- the loop of `await_suspend` with its `old_head` before or after the test of the count, or
-- suspended.
pub data Phase : Type 0 where
  running checked : Phase
  testing linking : Pointer → Phase
  suspended : Phase

-- A call of `count_down` in its first loop, with its `old_count`.
pub record Call : Type 0 where
  pub n : ℕ
  pub old_count : ℕ

-- `count` and `awaiters`; the awaiters by address; the calls of `count_down` in their first loop,
-- how many of them reached zero and have not read `awaiters`, and the `awaiter` of those that have.
pub record Latch : Type 0 where
  pub count : ℕ
  pub awaiters : Pointer
  pub next_awaiter : ℕ → Pointer
  pub phase : ℕ → Phase
  pub calls : List Call
  pub released : ℕ
  pub resuming : List Pointer

abbrev pub new_latch : ℕ → Latch
new_latch count = record {
  count = count;
  awaiters = null;
  next_awaiter = λ w. null;
  phase = λ w. running;
  calls = [];
  released = 0;
  resuming = [];
}

abbrev pub expired : Latch → Bool
expired l = l.count == 0

-- `await_ready`: an expired latch lets the coroutine go on.
unfoldable pub await_ready : ℕ → Latch → Latch
await_ready w l = record l { phase = update_at l.phase w (if expired l then running else checked) }

-- The first lines of `await_suspend`.
unfoldable pub load_head : ℕ → Latch → Latch
load_head w l = record l { phase = update_at l.phase w (testing l.awaiters) }

-- The test in the loop of `await_suspend`, and the awaiter's own pointer after it.
unfoldable pub test_expired : ℕ → Pointer → Latch → Latch
test_expired w old_head l =
    if expired l then record l { phase = update_at l.phase w running } else record l {
      next_awaiter = update_at l.next_awaiter w old_head;
      phase = update_at l.phase w (linking old_head);
    }

-- The exchange in the loop of `await_suspend`, which may fail without a reason.
unfoldable pub link_awaiter : Bool → ℕ → Pointer → Latch → Latch
link_awaiter spurious w old_head l =
    if same l.awaiters old_head && not spurious
    then record l { awaiters = awaiter w; phase = update_at l.phase w suspended }
    else record l { phase = update_at l.phase w (testing l.awaiters) }

-- The first line of `count_down`.
unfoldable pub load_count : ℕ → Latch → Latch
load_count n l = record l { calls = record { n = n; old_count = l.count } ∷ l.calls }

-- One round of the first loop of `count_down`, by one of the calls.
unfoldable pub count_down_round : Bool → List Call → Call → List Call → Latch → Latch
count_down_round spurious before c after l =
    let returned : Latch = record l { calls = before ++ after } in
    let new_count = c.old_count - c.n in
    let counted : Latch = record returned {
      count = new_count;
      released = l.released + (if new_count == 0 then 1 else 0);
    } in
    if ltb c.old_count c.n
    then returned
    else if (l.count == c.old_count) && not spurious
    then counted
    else record l { calls = before ++ record c { old_count = l.count } ∷ after }

-- A call that reached zero reads `awaiters`.
unfoldable pub read_awaiters : Latch → Latch
read_awaiters l = record l { released = l.released - 1; resuming = l.awaiters ∷ l.resuming }

-- One round of the second loop of `count_down`.
unfoldable pub resume_round : List Pointer → ℕ → List Pointer → Latch → Latch
resume_round before w after l = record l {
  resuming = before ++ l.next_awaiter w ∷ after;
  phase = update_at l.phase w running;
}

-- The whole second loop of `count_down`, run alone from `awaiter` on: the coroutines it resumes,
-- in order. `marker` is no address of an awaiter.
unfoldable pub resume_loop : ℕ → (ℕ → Pointer) → Pointer → Result (List ℕ)
resume_loop zero next head = err no_fuel
resume_loop (suc fuel) next null = ok []
resume_loop (suc fuel) next marker = err null_deref
resume_loop (suc fuel) next (awaiter w) = do rest ← resume_loop fuel next (next w); ok (w ∷ rest)

-- The steps of any number of coroutines and calls of `count_down`, each by one or more,
-- interleaved.
pub data Step (l : Latch) : Latch → Type 0 where
  ready : (w : ℕ) → l.phase w ≡ running → Step l (await_ready w l)
  suspend : (w : ℕ) → l.phase w ≡ checked → Step l (load_head w l)
  test :
      (w : ℕ) (old_head : Pointer)
      → l.phase w ≡ testing old_head
      → Step l (test_expired w old_head l)
  link :
      (spurious : Bool) (w : ℕ) (old_head : Pointer)
      → l.phase w ≡ linking old_head
      → Step l (link_awaiter spurious w old_head l)
  call : (n : ℕ) → Step l (load_count n l)
  round :
      (spurious : Bool) (before : List Call) (c : Call) (after : List Call)
      → l.calls ≡ before ++ c ∷ after
      → 0 < c.n
      → Step l (count_down_round spurious before c after l)
  read : 0 < l.released → Step l (read_awaiters l)
  resume :
      (before : List Pointer) (w : ℕ) (after : List Pointer)
      → l.resuming ≡ before ++ awaiter w ∷ after
      → Step l (resume_round before w after l)

pub data Reach (l : Latch) : Latch → Type 0 where
  start : Reach l l
  later : {k m : Latch} → Reach l k → Step k m → Reach l m
