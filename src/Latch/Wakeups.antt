-- ===== src/Latch/Wakeups.antt =====
-- primitives/async-latch: what the invariant says of the coroutines that wait.
use coroutines.Base.{
  ℕ, suc, ◌+◌, ◌≤◌, ◌<◌, ◌≡◌, refl, ap, subst, ◌∙◌, Bool, true, false, List, [], ◌∷◌, ◌++◌, ok,
  ◌==◌, ltb, not, ◌&&◌, ==_iff, Bool-cases, inl, inr, length, length-append, arith,
}
use coroutines.Awaiters.{
  Pointer, awaiter, same, update_at, occurrences, Chain, Chains, Chains-next, AllNull,
}
use coroutines.Latch.Core.{
  Phase, running, checked, testing, linking, suspended, Call, Latch, new_latch, await_ready,
  load_head, test_expired, link_awaiter, load_count, count_down_round, read_awaiters, resume_round,
  resume_loop, Step, ready, suspend, test, link, call, round, read, resume, Reach, start, later,
}
use coroutines.Latch.Sound.{waiting, Reach-IsSound}

waiting-suspended : (p : Phase) → 1 ≤ waiting p → p ≡ suspended
waiting-suspended running h = absurd (omega arith)
waiting-suspended checked h = absurd (omega arith)
waiting-suspended (testing old_head) h = absurd (omega arith)
waiting-suspended (linking old_head) h = absurd (omega arith)
waiting-suspended suspended h = refl

-- Along any interleaving of coroutines that await the latch and of calls of `count_down`, each by
-- one or more, an awaiter that a loop of `count_down` is about to resume is suspended, and running
-- after the round; the count is then zero, and no other call has reached or walks the list.
pub resumes_once :
    {count : ℕ} {l : Latch} (before : List Pointer) (w : ℕ) (after : List Pointer)
    → Reach (new_latch count) l
    → l.resuming ≡ before ++ awaiter w ∷ after
    → (l.phase w ≡ suspended)
      × ((resume_round before w after l).phase w ≡ running)
      × (l.count ≡ 0)
      × (l.released + length l.resuming ≡ 1)
unfolding resume_round
resumes_once {count} {l} before w after r h =
    let v = Reach-IsSound r in
    let (rest, held, counts) =
      Chains-next before w after (subst (λ ps. Chains l.next_awaiter ps v.chains) h v.held) in
    let here : (w == w) ≡ true = ground arith in
    let many : length l.resuming ≡ length before + suc (length after) =
      ap length h ∙ length-append before (awaiter w ∷ after) in
    (
      waiting-suspended (l.phase w) (ground (arith, v.below w, counts w, here)),
      rw here,
      ground (arith, v.one, many),
      ground (arith, v.one, many),
    )

resume_loop-Chain :
    (next : ℕ → Pointer) (p : Pointer) (ws : List ℕ)
    → Chain next p ws
    → resume_loop (suc (length ws)) next p ≡ ok ws
unfolding resume_loop
resume_loop-Chain next p [] c = rw c
resume_loop-Chain next p (w ∷ ws) c = rw (c.0, resume_loop-Chain next (next w) ws c.1)

-- In each state reached by an interleaving of coroutines that await the latch and of calls of
-- `count_down` where a call brought the count to zero and has not read the list yet, the loop over
-- the list as it is then ends after as many rounds as awaiters are suspended, and resumes each of
-- them once and no other.
pub resume_loop-suspended :
    {count : ℕ} {l : Latch}
    → Reach (new_latch count) l
    → 0 < l.released
    → (ws : List ℕ) × (resume_loop (suc (length ws)) l.next_awaiter l.awaiters ≡ ok ws)
      × ((w : ℕ) → occurrences w ws ≡ waiting (l.phase w))
resume_loop-suspended {count} {l} r h =
    let v = Reach-IsSound r in
    (v.chain, resume_loop-Chain l.next_awaiter l.awaiters v.chain v.linked, v.once (omega arith))

-- The latch expired, and the call that reached zero has resumed all it found.
pub record IsOver (l : Latch) : Type 0 where
  pub at_zero : l.count ≡ 0
  pub all_read : l.released ≡ 0
  pub all_resumed : AllNull l.resuming

still_suspended :
    (f : ℕ → Phase) (w x : ℕ) (p : Phase)
    → f w ≡ suspended
    → waiting (f x) ≡ 0
    → update_at f x p w ≡ suspended
still_suspended f w x p e out = elim (Bool-cases (w == x)) [
  | inl hit ↦
      absurd (omega (arith, out, ap waiting e, ap (λ y. waiting (f y)) ((==_iff w x).0 hit)))
  | inr miss ↦ rw (miss, e)
]

no_awaiter :
    (before : List Pointer) (w : ℕ) (after : List Pointer) → ¬ AllNull (before ++ awaiter w ∷ after)
no_awaiter [] w after h = cc (h.0)
no_awaiter (p ∷ before) w after h = no_awaiter before w after h.1

round-IsOver :
    {l : Latch} (spurious : Bool) (before : List Call) (c : Call) (after : List Call) (w : ℕ)
    → 0 < c.n
    → IsOver l
    → l.phase w ≡ suspended
    → IsOver (count_down_round spurious before c after l)
      × ((count_down_round spurious before c after l).phase w ≡ suspended)
unfolding count_down_round
round-IsOver {l} spurious before c after w pos over e = elim (Bool-cases (ltb c.old_count c.n)) [
  | inl above ↦ rw above (
    record { at_zero = over.at_zero; all_read = over.all_read; all_resumed = over.all_resumed },
    e,
  )
  | inr enough ↦
      let failed : ((l.count == c.old_count) && not spurious) ≡ false =
        ground (arith, over.at_zero, enough, pos) in
      rw (enough, failed)
        (
          record {
            at_zero = over.at_zero;
            all_read = over.all_read;
            all_resumed = over.all_resumed;
          },
          e,
        )
]

Step-IsOver :
    {l m : Latch} (w : ℕ)
    → Step l m
    → IsOver l
    → l.phase w ≡ suspended
    → IsOver m × (m.phase w ≡ suspended)
unfolding await_ready load_head test_expired link_awaiter load_count read_awaiters resume_round
Step-IsOver {l} w (ready x h) over e = (
  record { at_zero = over.at_zero; all_read = over.all_read; all_resumed = over.all_resumed },
  still_suspended l.phase w x _ e (ap waiting h),
)
Step-IsOver {l} w (suspend x h) over e = (
  record { at_zero = over.at_zero; all_read = over.all_read; all_resumed = over.all_resumed },
  still_suspended l.phase w x _ e (ap waiting h),
)
Step-IsOver {l} w (test x old_head h) over e =
    let zero : (l.count == 0) ≡ true = ground (arith, over.at_zero) in
    rw zero (
      record { at_zero = over.at_zero; all_read = over.all_read; all_resumed = over.all_resumed },
      still_suspended l.phase w x _ e (ap waiting h),
    )
Step-IsOver {l} w (link spurious x old_head h) over e =
    elim (Bool-cases (same l.awaiters old_head && not spurious)) [
      | inl exchanged ↦ rw exchanged (
        record { at_zero = over.at_zero; all_read = over.all_read; all_resumed = over.all_resumed },
        still_suspended l.phase w x _ e (ap waiting h),
      )
      | inr failed ↦ rw failed (
        record { at_zero = over.at_zero; all_read = over.all_read; all_resumed = over.all_resumed },
        still_suspended l.phase w x _ e (ap waiting h),
      )
    ]
Step-IsOver {l} w (call n) over e =
    (record { at_zero = over.at_zero; all_read = over.all_read; all_resumed = over.all_resumed }, e)
Step-IsOver {l} w (round spurious before c after h pos) over e =
    round-IsOver spurious before c after w pos over e
Step-IsOver {l} w (read h) over e = absurd (omega (arith, over.all_read))
Step-IsOver {l} w (resume before x after h) over e =
    absurd (no_awaiter before x after (subst AllNull h over.all_resumed))

late_IsOver :
    {l m : Latch} (w : ℕ)
    → IsOver l
    → l.phase w ≡ suspended
    → Reach l m
    → IsOver m × (m.phase w ≡ suspended)
late_IsOver w over e start = (over, e)
late_IsOver w over e (later r st) =
    let (over', e') = late_IsOver w over e r in Step-IsOver w st over' e'

-- Where the count is zero, the call that reached it has read the list, and all it found is
-- resumed, a coroutine that is still suspended stays suspended in every later state, whatever the
-- coroutines do and however often the latch is counted down by one or more.
pub late_awaiter_lost :
    {l m : Latch} (w : ℕ) → IsOver l → l.phase w ≡ suspended → Reach l m → m.phase w ≡ suspended
late_awaiter_lost w over e r = (late_IsOver w over e r).1
