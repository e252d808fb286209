-- ===== src/Event/Wakeups.antt =====
-- primitives/manual-reset-event: what the invariant says of the coroutines that wait.
use coroutines.Base.{
  ℕ, suc, ◌≤◌, ◌≡◌, ◌≢◌, refl, ap, subst, Bool, true, false, List, [], ◌∷◌, ◌++◌, ok, ◌==◌, length,
  arith,
}
use coroutines.Awaiters.{
  Pointer, awaiter, occurrences, Chain, Chain-null, Chains, Chains-next, AllNull, Chains-AllNull,
}
use coroutines.Event.Core.{
  Phase, running, checked, looping, suspended, Event, is_set, resume_round, set_loop, Reach,
}
use coroutines.Event.Sound.{listed, listed-set, listed-unset, waiting, Reach-IsSound}

-- What is suspended, by the lists.
waiting-suspended : (p : Phase) → 1 ≤ waiting p → p ≡ suspended
waiting-suspended running h = absurd (omega arith)
waiting-suspended checked h = absurd (omega arith)
waiting-suspended (looping old_val) h = absurd (omega arith)
waiting-suspended suspended h = refl

-- Along any interleaving of coroutines that await the event and of calls of `set` and `reset`,
-- once the event is set and no call of `set` has an awaiter left, no coroutine is suspended.
pub no_lost_wakeup :
    {b : Bool} {e : Event}
    → Reach b e
    → is_set e ≡ true
    → AllNull e.setters
    → (w : ℕ) → e.phase w ≢ suspended
no_lost_wakeup {b} {e} r now nulls w stuck =
    let v = Reach-IsSound r in
    absurd (
      omega (
        arith,
        v.once w,
        ap waiting stuck,
        Chains-AllNull nulls v.held w,
        Chain-null e.next_awaiter (listed e.state) v.chain w (listed-set e.state now) v.linked,
      ))

-- Along any interleaving of coroutines that await the event and of calls of `set` and `reset`,
-- each awaiter that a loop of `set` is about to resume is suspended, and running after the round,
-- so no coroutine is resumed twice for one suspension.
pub resumes_suspended :
    {b : Bool} {e : Event} (before : List Pointer) (w : ℕ) (after : List Pointer)
    → Reach b e
    → e.setters ≡ before ++ awaiter w ∷ after
    → (e.phase w ≡ suspended) × ((resume_round before w after e).phase w ≡ running)
unfolding resume_round
resumes_suspended {b} {e} before w after r h =
    let v = Reach-IsSound r in
    let (rest, held, counts) =
      Chains-next before w after (subst (λ ps. Chains e.next_awaiter ps v.chains) h v.held) in
    let here : (w == w) ≡ true = ground arith in
    (waiting-suspended (e.phase w) (ground (arith, v.once w, counts w, here)), rw here)

set_loop-Chain :
    (next : ℕ → Pointer) (p : Pointer) (ws : List ℕ)
    → Chain next p ws
    → set_loop (suc (length ws)) next p ≡ ok ws
unfolding set_loop
set_loop-Chain next p [] c = rw c
set_loop-Chain next p (w ∷ ws) c = rw (c.0, set_loop-Chain next (next w) ws c.1)

-- In each state reached by an interleaving of coroutines that await the event and of calls of
-- `set` and `reset` where the event is not set and no other call of `set` has an awaiter left, the
-- loop of `set` over the list ends after as many rounds as awaiters are suspended, and resumes
-- each of them once and no other.
pub set_loop-suspended :
    {b : Bool} {e : Event}
    → Reach b e
    → is_set e ≡ false
    → AllNull e.setters
    → (ws : List ℕ) × (set_loop (suc (length ws)) e.next_awaiter e.state ≡ ok ws)
      × ((w : ℕ) → occurrences w ws ≡ waiting (e.phase w))
set_loop-suspended {b} {e} r unset nulls =
    let v = Reach-IsSound r in
    (
      v.chain,
      set_loop-Chain e.next_awaiter e.state v.chain (rw (listed-unset e.state unset) v.linked),
      λ w. omega (arith, v.once w, Chains-AllNull nulls v.held w),
    )
