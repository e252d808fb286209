-- ===== src/Lock/Core.antt =====
-- primitives/async-lock/async_lock.hpp: the lock, and each atomic access of its operations as one
-- step. `null` stands for NOT_LOCKED and a null pointer, `marker` for LOCKED_NO_WAITERS.
use coroutines.Base.{
  ℕ, ◌≡◌, Bool, true, false, Result, ok, err, no_fuel, null_deref, wild_deref, ◌>>=◌, if◌then◌else◌,
  not, ◌&&◌, suc, zero,
}
use coroutines.Awaiters.{Pointer, null, marker, awaiter, is_marker, same, update_at}

-- Where the coroutine that owns an awaiter stands: without the lock, in the loop of
-- `await_suspend` with its `prev_state`, suspended, with the lock, or in `release` after its first
-- exchange failed.
pub data Phase : Type 0 where
  running : Phase
  looping : Pointer → Phase
  suspended holding transferring : Phase

-- `state` and `awaiters`, and the awaiters by address.
pub record Lock : Type 0 where
  pub state : Pointer
  pub awaiters : Pointer
  pub next_awaiter : ℕ → Pointer
  pub phase : ℕ → Phase

abbrev pub new_lock : Lock
new_lock = record { state = null; awaiters = null; next_awaiter = λ w. null; phase = λ w. running }

abbrev pub is_null : Pointer → Bool
is_null null = true
is_null marker = false
is_null (awaiter w) = false

-- The first lines of `await_suspend`.
unfoldable pub load_state : ℕ → Lock → Lock
load_state w l = record l { phase = update_at l.phase w (looping l.state) }

-- One round of the loop of `await_suspend`. The weak exchanges may fail without a reason.
unfoldable pub acquire_round : Bool → ℕ → Pointer → Lock → Lock
acquire_round spurious w prev_state l =
    let exchanges = same l.state prev_state && not spurious in
    let linked : Lock = record l { next_awaiter = update_at l.next_awaiter w prev_state } in
    if is_null prev_state
    then (if exchanges
        then record l { state = marker; phase = update_at l.phase w holding }
        else record l { phase = update_at l.phase w (looping l.state) })
    else if exchanges
    then record linked { state = awaiter w; phase = update_at l.phase w suspended }
    else record linked { phase = update_at l.phase w (looping l.state) }

-- The last lines of `release`, by the coroutine `w`: the head of `awaiters` gets the lock.
unfoldable pub resume_first : ℕ → Pointer → Lock → Result Lock
resume_first w null l = err null_deref
resume_first w marker l = err wild_deref
resume_first w (awaiter head) l = ok (record l {
  awaiters = l.next_awaiter head;
  phase = update_at (update_at l.phase w running) head holding;
})

-- `release` up to its first exchange, a strong one.
unfoldable pub release : ℕ → Lock → Result Lock
release w l =
    if is_null l.awaiters
    then (if is_marker l.state
        then ok (record l { state = null; phase = update_at l.phase w running })
        else ok (record l { phase = update_at l.phase w transferring }))
    else resume_first w l.awaiters l

-- The loop of `release`: the new `awaiters_head` and the awaiters' pointers. It follows the
-- pointers until one is null.
unfoldable pub reverse_loop :
    ℕ → (ℕ → Pointer) → Pointer → Pointer → Result (Pointer × (ℕ → Pointer))
reverse_loop zero next current head = err no_fuel
reverse_loop (suc fuel) next null head = err null_deref
reverse_loop (suc fuel) next marker head = err wild_deref
reverse_loop (suc fuel) next (awaiter c) head =
    let tmp = next c in
    let relinked = update_at next c head in
    let further = reverse_loop fuel relinked tmp (awaiter c) in
    if is_null tmp then ok (awaiter c, relinked) else further

-- `release` from its second exchange on.
unfoldable pub transfer : ℕ → ℕ → Lock → Result Lock
transfer fuel w l = do
  (head, next) ← reverse_loop fuel l.next_awaiter l.state l.awaiters
  resume_first w head (record l { state = marker; next_awaiter = next })

-- The steps of any number of coroutines, interleaved.
pub data Step (l : Lock) : Lock → Type 0 where
  enter : (w : ℕ) → l.phase w ≡ running → Step l (load_state w l)
  round :
      (spurious : Bool) (w : ℕ) (prev_state : Pointer)
      → l.phase w ≡ looping prev_state
      → Step l (acquire_round spurious w prev_state l)
  leave : (w : ℕ) {m : Lock} → l.phase w ≡ holding → release w l ≡ ok m → Step l m
  hand_over :
      (fuel w : ℕ) {m : Lock} → l.phase w ≡ transferring → transfer fuel w l ≡ ok m → Step l m

pub data Reach : Lock → Type 0 where
  start : Reach new_lock
  later : {k m : Lock} → Reach k → Step k m → Reach m
