-- ===== src/Lock/Releases.antt =====
-- The lock of primitives/async-lock along any history: exclusion, and what a release does.
use coroutines.Base.{
  ℕ, suc, ◌≤◌, ◌≡◌, ◌≢◌, refl, ap, true, false, List, [], ◌∷◌, ok, err, wild_deref, no_fuel, ◌==◌,
  leb, if◌then◌else◌, length, arith, ◌⊎◌, inl, inr, List-cases,
}
use coroutines.Awaiters.{Pointer, null, is_marker, update_at, occurrences}
use coroutines.Lock.Core.{
  Phase, running, looping, suspended, holding, transferring, Lock, release, transfer, Reach,
}
use coroutines.Lock.Sound.{Stack, waiting, owning, IsSound, owning-locked, IsSound-phase}
use coroutines.Lock.Histories.{
  occurrences_sole, after_release, release_runs, state-Stack, transfer_runs, Reach-IsSound,
}

-- Along any interleaving of coroutines that acquire and release the lock, if one coroutine has the
-- lock, no other coroutine has it.
pub mutual_exclusion :
    {l : Lock} (w x : ℕ) → Reach l → 1 ≤ owning (l.phase w) → w ≢ x → owning (l.phase x) ≡ 0
mutual_exclusion {l} w x r h other =
    let v = Reach-IsSound r in
    let one : length v.owners ≡ 1 = rw (owning-locked w h v) at v.held in
    let sole = occurrences_sole w v.owners one (omega (arith, v.own w, h)) x in
    ground (arith, sole, v.own x, other)

-- The state tells whether somebody waits.
Stack-nobody :
    (next : ℕ → Pointer) (p : Pointer) (ws : List ℕ)
    → Stack next p ws
    → ((x : ℕ) → occurrences x ws ≡ 0)
    → is_marker p ≡ true
Stack-nobody next p [] c none = rw c
Stack-nobody next p (w ∷ ws) c none = absurd (ground (arith, none w))

Stack-somebody :
    (next : ℕ → Pointer) (p : Pointer) (ws : List ℕ) (x : ℕ)
    → Stack next p ws
    → 1 ≤ occurrences x ws
    → is_marker p ≡ false
Stack-somebody next p [] x c some = absurd (omega arith)
Stack-somebody next p (w ∷ ws) x c some = rw c.0

not_waiting : (p : Phase) → p ≢ suspended → waiting p ≡ 0
not_waiting running h = refl
not_waiting (looping prev_state) h = refl
not_waiting suspended h = absurd (h refl)
not_waiting holding h = refl
not_waiting transferring h = refl

waiting-suspended : (p : Phase) → 1 ≤ waiting p → p ≡ suspended
waiting-suspended running h = absurd (omega arith)
waiting-suspended (looping prev_state) h = absurd (omega arith)
waiting-suspended suspended h = refl
waiting-suspended holding h = absurd (omega arith)
waiting-suspended transferring h = absurd (omega arith)

-- In each state reached by an interleaving of coroutines that acquire and release the lock, when
-- the coroutine that has the lock releases it while no coroutine is suspended, `release` leaves
-- the lock free.
pub uncontended_release :
    {l : Lock} (w : ℕ)
    → Reach l
    → l.phase w ≡ holding
    → ((x : ℕ) → l.phase x ≢ suspended)
    → release w l ≡ ok (record l { state = null; phase = update_at l.phase w running })
uncontended_release {l} w r h none =
    let v = Reach-IsSound r in
    let locked = owning-locked w (omega (arith, ap owning h)) v in
    let free =
      Stack-nobody l.next_awaiter l.state v.chain (state-Stack v locked)
        (λ x. omega (arith, v.once x, not_waiting (l.phase x) (none x))) in
    let run : release w l ≡ ok (after_release w l) = release_runs w v in rw free at run

-- In each state reached by an interleaving of coroutines that acquire and release the lock, when
-- the coroutine that has the lock releases it while another is suspended on it, the first exchange
-- fails, and the rest of `release`, run from there with enough fuel, reads an awaiter at an
-- address that is none, the value LOCKED_NO_WAITERS.
pub contended_release :
    {l : Lock} (w x : ℕ)
    → Reach l
    → l.phase w ≡ holding
    → l.phase x ≡ suspended
    → (m : Lock) × (release w l ≡ ok m)
      × (enough : ℕ) × ((fuel : ℕ) → enough ≤ fuel → transfer fuel w m ≡ err wild_deref)
contended_release {l} w x r h e =
    let v = Reach-IsSound r in
    let locked = owning-locked w (omega (arith, ap owning h)) v in
    let contended =
      Stack-somebody l.next_awaiter l.state v.chain x (state-Stack v locked)
        (omega (arith, v.once x, ap waiting e)) in
    let run : release w l ≡ ok (after_release w l) = release_runs w v in
    let m : Lock = record l { phase = update_at l.phase w transferring } in
    let v' : IsSound m = IsSound-phase w transferring (ap waiting h) (ap owning h) v in
    let here : (w == w) ≡ true = ground arith in
    let now : m.phase w ≡ transferring = rw here in
    (
      m,
      rw contended at run,
      suc (length v'.chain),
      λ fuel enough.
          let long : leb fuel (length v'.chain) ≡ false = ground (arith, enough) in
          let fault : transfer fuel w m
              ≡ err (if leb fuel (length v'.chain) then no_fuel else wild_deref) =
            transfer_runs {l = m} fuel w v' now in
          rw long at fault,
    )

-- In each state reached by an interleaving of coroutines that acquire and release the lock, when
-- the coroutine that has the lock releases it: either no coroutine is suspended, and `release`
-- leaves the lock free; or one is, the first exchange fails, and the rest of `release`, run from
-- there with enough fuel, reads an awaiter at an address that is none, the value
-- LOCKED_NO_WAITERS.
pub release_outcome :
    {l : Lock} (w : ℕ)
    → Reach l
    → l.phase w ≡ holding
    → (((x : ℕ) → l.phase x ≢ suspended)
        × (release w l ≡ ok (record l { state = null; phase = update_at l.phase w running })))
      ⊎ (((x : ℕ) × (l.phase x ≡ suspended))
          × (m : Lock) × (release w l ≡ ok m)
          × (enough : ℕ) × ((fuel : ℕ) → enough ≤ fuel → transfer fuel w m ≡ err wild_deref))
release_outcome {l} w r h =
    let v = Reach-IsSound r in
    elim (List-cases v.chain) [
      | inl nobody ↦
          let awake : (x : ℕ) → l.phase x ≢ suspended =
            λ x s. omega (arith, v.once x, ap waiting s, ap (occurrences x) nobody) in
          inl (awake, uncontended_release w r h awake)
      | inr (x, ws, somebody) ↦
          let asleep : l.phase x ≡ suspended =
            waiting-suspended (l.phase x) (ground (arith, v.once x, ap (occurrences x) somebody)) in
          let (m, run, enough, wild) = contended_release w x r h asleep in
          inr ((x, asleep), m, run, enough, wild)
    ]
