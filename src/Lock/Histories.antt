-- ===== src/Lock/Histories.antt =====
-- The lock of primitives/async-lock: its invariant, step by step.
use coroutines.Base.{
  ℕ, ◌≤◌, ◌≡◌, refl, ap, subst, ◌∙◌, Bool, true, false, List, [], ◌∷◌, ok, err, wild_deref, no_fuel,
  ◌==◌, leb, if◌then◌else◌, not, ◌&&◌, Bool-cases, inl, inr, length, arith,
}
use coroutines.Awaiters.{
  Pointer, null, marker, awaiter, is_marker, same, same-≡, update_at, occurrences, weight-update_at,
}
use coroutines.Lock.Core.{
  Phase, running, looping, suspended, holding, transferring, Lock, new_lock, is_null, load_state,
  acquire_round, release, transfer, Step, enter, round, leave, hand_over, Reach, start, later,
}
use coroutines.Lock.Sound.{
  Stack, reverse_loop-Stack, listed-locked, waiting, owning, IsSound, owning-locked, IsSound-phase,
  IsSound-next, IsSound-take, IsSound-link,
}

null_of : (p : Pointer) → is_null p ≡ true → p ≡ null
null_of null h = refl
null_of marker h = cc h
null_of (awaiter w) h = cc h

waiting_le : (p : Phase) → waiting p ≤ 1
waiting_le running = omega arith
waiting_le (looping prev_state) = omega arith
waiting_le suspended = omega arith
waiting_le holding = omega arith
waiting_le transferring = omega arith

round-IsSound :
    {l : Lock} (spurious : Bool) (w : ℕ) (p : Pointer)
    → l.phase w ≡ looping p
    → IsSound l
    → IsSound (acquire_round spurious w p l)
unfolding acquire_round
round-IsSound {l} spurious w p h v =
    let here : (w == w) ≡ true = ground arith in
    let retry : Phase = looping l.state in
    elim (Bool-cases (is_null p)) [
      | inl free ↦ elim (Bool-cases (same l.state p && not spurious)) [
        | inl exchanged ↦
            let now : l.state ≡ p = same-≡ l.state p (ground (arith, exchanged)) in
            rw (free, exchanged) (IsSound-take w p h (now ∙ null_of p free) v)
        | inr failed ↦ rw (free, failed) (IsSound-phase w retry (ap waiting h) (ap owning h) v)
      ]
      | inr locked ↦ elim (Bool-cases (same l.state p && not spurious)) [
        | inl exchanged ↦
            let now : l.state ≡ p = same-≡ l.state p (ground (arith, exchanged)) in
            rw (locked, exchanged)
              (IsSound-link w p h (rw now locked) (rw (here, now))
                (IsSound-next w p (ap waiting h) v))
        | inr failed ↦
            rw (locked, failed)
              (IsSound-phase w retry (ap waiting h) (ap owning h)
                (IsSound-next w p (ap waiting h) v))
      ]
    ]

-- The only one on a list of one.
pub occurrences_sole :
    (w : ℕ) (ws : List ℕ)
    → length ws ≡ 1
    → 1 ≤ occurrences w ws
    → (x : ℕ) → occurrences x ws ≡ (if w == x then 1 else 0)
occurrences_sole w [] one on x = absurd (omega (arith, one))
occurrences_sole w (v ∷ []) one on x = ground (arith, on)
occurrences_sole w (u ∷ v ∷ ws) one on x = absurd (omega (arith, one))

IsSound-unlock :
    {l : Lock} (w : ℕ)
    → l.phase w ≡ holding
    → l.state ≡ marker
    → IsSound l
    → IsSound (record l { state = null; phase = update_at l.phase w running })
IsSound-unlock {l} w h at_marker v =
    let was_waiting = ap waiting h in
    let was_owning = ap owning h in
    let one : length v.owners ≡ 1 = rw at_marker at v.held in
    record {
      chain = v.chain;
      owners = [];
      queue = v.queue;
      linked = rw at_marker at v.linked;
      once =
          λ x. ground (arith, v.once x, weight-update_at waiting l.phase w running x, was_waiting);
      own = λ x. ground (
        arith,
        v.own x,
        occurrences_sole w v.owners one (omega (arith, v.own w, was_owning)) x,
        weight-update_at owning l.phase w running x,
        was_owning,
      );
      held = refl;
    }

marker_of : (p : Pointer) → is_marker p ≡ true → p ≡ marker
marker_of null h = cc h
marker_of marker h = refl
marker_of (awaiter w) h = cc h

-- What `release` does up to its first exchange.
abbrev pub after_release : ℕ → Lock → Lock
after_release w l =
    if is_marker l.state
    then record l { state = null; phase = update_at l.phase w running }
    else record l { phase = update_at l.phase w transferring }

pub release_runs : {l : Lock} (w : ℕ) → IsSound l → release w l ≡ ok (after_release w l)
unfolding release
release_runs {l} w v = elim (Bool-cases (is_marker l.state)) [
  | inl uncontended ↦ rw (v.queue, uncontended)
  | inr contended ↦ rw (v.queue, contended)
]

released-IsSound :
    {l : Lock} (w : ℕ) → l.phase w ≡ holding → IsSound l → IsSound (after_release w l)
released-IsSound {l} w h v = elim (Bool-cases (is_marker l.state)) [
  | inl uncontended ↦ rw uncontended (IsSound-unlock w h (marker_of l.state uncontended) v)
  | inr contended ↦ rw contended (IsSound-phase w transferring (ap waiting h) (ap owning h) v)
]

pub state-Stack :
    {l : Lock} (v : IsSound l) → is_null l.state ≡ false → Stack l.next_awaiter l.state v.chain
state-Stack {l} v locked =
    subst (λ q. Stack l.next_awaiter q v.chain) (listed-locked l.state locked) v.linked

-- `transfer` never ends well: it reads through the end mark, or the fuel of the model is short.
pub transfer_runs :
    {l : Lock} (fuel w : ℕ) (v : IsSound l)
    → l.phase w ≡ transferring
    → transfer fuel w l ≡ err (if leb fuel (length v.chain) then no_fuel else wild_deref)
unfolding transfer
transfer_runs {l} fuel w v h =
    let locked = owning-locked w (omega (arith, ap owning h)) v in
    let run =
      reverse_loop-Stack fuel l.next_awaiter l.state l.awaiters v.chain (state-Stack v locked)
        (λ x. omega (arith, v.once x, waiting_le (l.phase x))) in
    rw run

Step-IsSound : {l m : Lock} → Step l m → IsSound l → IsSound m
unfolding load_state
Step-IsSound {l} (enter w h) v = IsSound-phase w (looping l.state) (ap waiting h) (ap owning h) v
Step-IsSound {l} (round spurious w p h) v = round-IsSound spurious w p h v
Step-IsSound {l} {m} (leave w h e) v =
    let same_lock : after_release w l ≡ m = cc (release_runs w v, e) in
    subst IsSound same_lock (released-IsSound w h v)
Step-IsSound {l} (hand_over fuel w h e) v = cc (transfer_runs fuel w v h, e)

new_lock-IsSound : IsSound new_lock
new_lock-IsSound = record {
  chain = [];
  owners = [];
  queue = refl;
  linked = refl;
  once = λ w. refl;
  own = λ w. refl;
  held = refl;
}

pub Reach-IsSound : {l : Lock} → Reach l → IsSound l
Reach-IsSound start = new_lock-IsSound
Reach-IsSound (later r st) = Step-IsSound st (Reach-IsSound r)
