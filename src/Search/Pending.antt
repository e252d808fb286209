-- ===== src/Search/Pending.antt =====
-- applications/binary-search/state_machine.hpp: what frames that are searching have left to do.
use coroutines.Base.Int.{ℤ}
use coroutines.Base.{
  ℕ, zero, suc, ◌+◌, ◌≤◌, ◌<◌, ◌≡◌, refl, sym, ap, ◌∙◌, Bool, true, false, Option, List, [], ◌∷◌,
  Result, ok, at, set, replicate, length, if◌then◌else◌, ◌&&◌, Bool-cases, inl, inr, arith,
}
use coroutines.Search.Core.{vanilla_loop, Frame, new_frame, run, is_running, is_found}
use coroutines.Search.Machine.{searching, goes_on, finishes, run-Runs}
use coroutines.Search.Frames.{sweep, complete_all}

abbrev pub bit : Bool → ℕ
bit true = 1
bit false = 0

module _ (items : List ℤ) where
  -- The positive answers that a frame has yet to give, by the plain search from where it stands, and
  -- a bound for its rounds.
  pub data Pending (f : Frame) (hits work : ℕ) : Type 0 where
    idle : is_running f.state ≡ false → hits ≡ 0 → Pending f hits work
    busy :
        (last : Option ℕ) (first len : ℕ) (val : ℤ) (b : Bool)
        → f ≡ searching last first len val
        → 0 < len
        → len < work
        → first + len ≤ length items
        → vanilla_loop work items first len val ≡ ok b
        → hits ≡ bit b
        → Pending f hits work

  -- What one `run` makes of a searching frame.
  pub data Ran (hits work : ℕ) (r : Result (Bool × Frame)) : Type 0 where
    goes :
        (f : Frame) (work' : ℕ)
        → r ≡ ok (false, f)
        → is_running f.state ≡ true
        → Pending f hits work'
        → work ≡ suc work'
        → Ran hits work r
    ends :
        (f : Frame)
        → r ≡ ok (true, f)
        → is_running f.state ≡ false
        → hits ≡ bit (is_found f.state)
        → 0 < work
        → Ran hits work r

  bit-found :
      (fuel first len : ℕ) (val : ℤ) {b c : Bool}
      → vanilla_loop fuel items first len val ≡ ok b
      → vanilla_loop fuel items first len val ≡ ok c
      → bit b ≡ bit c
  bit-found fuel first len val e h = ap bit (injective (sym e ∙ h))
    where
      injective : {b c : Bool} → ◌≡◌ {A = Result Bool} (ok b) (ok c) → b ≡ c
      injective e = cc e

  searching-Ran :
      (work : ℕ) (last : Option ℕ) (first len : ℕ) (val : ℤ) (b : Bool)
      → 0 < len
      → len < work
      → first + len ≤ length items
      → vanilla_loop work items first len val ≡ ok b
      → Ran (bit b) work (run items (searching last first len val))
  searching-Ran zero last first len val b pos enough fits e = absurd (omega (arith, enough))
  searching-Ran (suc work) last first len val b pos enough fits e =
      elim (run-Runs items last first len work val pos fits) [
        | goes_on first' len' pos' shorter fits' ran same ↦
            goes (searching last first' len' val) work ran refl
              (busy last first' len' val b refl pos' (omega (arith, shorter, enough)) fits'
                (sym same ∙ e) refl)
              refl
        | finishes f ran ended same ↦
            ends f ran ended
              (bit-found (suc work) first len val e (same (omega (arith, pos, enough))))
              (omega arith)
      ]

  pub run-Ran :
      (f : Frame) (hits work : ℕ)
      → is_running f.state ≡ true
      → Pending f hits work
      → Ran hits work (run items f)
  run-Ran f hits work on (idle off e) = cc (on, off)
  run-Ran f hits work on (busy last first len val b same pos enough fits e h) =
      rw (same, h) (searching-Ran work last first len val b pos enough fits e)

  -- The same of all frames, added up.
  abbrev pub Pendings : List Frame → ℕ → ℕ → Type 0
  Pendings [] hits work = hits ≡ 0
  Pendings (f ∷ fs) hits work =
      (h : ℕ) × (w : ℕ) × (hs : ℕ) × (ws : ℕ) × Pending f h w
      × Pendings fs hs ws
      × (hits ≡ h + hs)
      × (w + ws ≤ work)

  -- One frame of them, and what a change of it does to the sums.
  pub focus :
      (fs : List Frame) (i : ℕ) (f : Frame) (hits work : ℕ)
      → at fs i ≡ ok f
      → Pendings fs hits work
      → (h : ℕ) × (w : ℕ) × (hs : ℕ) × (ws : ℕ) × Pending f h w
        × (hits ≡ h + hs)
        × (w + ws ≤ work)
        × ((f' : Frame) (h' w' : ℕ) → Pending f' h' w' → Pendings (set fs i f') (h' + hs) (w' + ws))
  focus [] i f hits work e p = cc e
  focus (g ∷ fs) zero f hits work e (h, w, hs, ws, p, ps, sum, few) = (
    h,
    w,
    hs,
    ws,
    rw (same e) at p,
    sum,
    few,
    λ f' h' w' p'. (h', w', hs, ws, p', ps, refl, omega arith),
  )
    where
      same : ◌≡◌ {A = Result Frame} (ok g) (ok f) → g ≡ f
      same e = cc e
  focus (g ∷ fs) (suc i) f hits work e (h, w, hs, ws, p, ps, sum, few) =
      let (h0, w0, hs0, ws0, p0, sum0, few0, change) = focus fs i f hs ws e ps in
      (
        h0,
        w0,
        h + hs0,
        w + ws0,
        p0,
        omega (arith, sum, sum0),
        omega (arith, few, few0),
        λ f' h' w' p'. (h, w, h' + hs0, w' + ws0, p, change f' h' w' p', omega arith, omega arith),
      )

  pub new-Pendings : (n : ℕ) → Pendings (replicate n new_frame) 0 0
  new-Pendings zero = refl
  new-Pendings (suc n) = (0, 0, 0, 0, idle refl refl, new-Pendings n, omega arith, omega arith)

  pub idle-hits :
      (f : Frame) (hits work : ℕ) → is_running f.state ≡ false → Pending f hits work → hits ≡ 0
  idle-hits f hits work off (idle _ e) = e
  idle-hits f hits work off (busy last first len val b same pos enough fits e h) =
      absurd (true-false (sym (ap (λ (g : Frame). is_running g.state) same) ∙ off))
    where
      true-false : true ≡ false → ⊥
      true-false e = cc e

  sweep-idle :
      (f : Frame) (fs fs' : List Frame) (result result' : ℕ) (more : Bool)
      → is_running f.state ≡ false
      → sweep items fs result ≡ ok (fs', result', more)
      → sweep items (f ∷ fs) result ≡ ok (f ∷ fs', result', more)
  unfolding sweep
  sweep-idle f fs fs' result result' more off e = rw (off, sweep, e)

  sweep-busy :
      (f next : Frame) (fs fs' : List Frame) (result result' : ℕ) (complete more : Bool)
      → is_running f.state ≡ true
      → run items f ≡ ok (complete, next)
      → sweep items fs (if complete && is_found next.state then result + 1 else result)
        ≡ ok (fs', result', more)
      → sweep items (f ∷ fs) result ≡ ok (next ∷ fs', result', true)
  unfolding sweep
  sweep-busy f next fs fs' result result' complete more on ran e = rw (on, sweep, ran, e)

  -- One pass over the frames, and what it leaves.
  pub data Swept (fs : List Frame) (result hits work : ℕ) : Type 0 where
    swept :
        (fs' : List Frame) (result' : ℕ) (more : Bool) (hits' work' : ℕ)
        → sweep items fs result ≡ ok (fs', result', more)
        → Pendings fs' hits' work'
        → result' + hits' ≡ result + hits
        → work' + bit more ≤ work
        → (more ≡ false → (hits ≡ 0) × (result' ≡ result))
        → Swept fs result hits work

  pub add_bit : (b : Bool) (n : ℕ) → (if b then n + 1 else n) ≡ n + bit b
  add_bit true n = refl
  add_bit false n = omega arith

  pub sweep-Pendings :
      (fs : List Frame) (result hits work : ℕ) → Pendings fs hits work → Swept fs result hits work
  unfolding sweep
  sweep-Pendings [] result hits work p =
      swept [] result false 0 0 refl refl (omega (arith, p)) (omega arith) λ _. (p, refl)
  sweep-Pendings (f ∷ fs) result hits work (h, w, hs, ws, p, ps, sum, few) =
      elim (Bool-cases (is_running f.state)) [
        | inr off ↦ elim (sweep-Pendings fs result hs ws ps) [
          | swept fs' result' more hits' work' e ps' sum' few' none_left ↦
              let no_hits = idle-hits f h w off p in
              swept (f ∷ fs') result' more hits' (w + work')
                (sweep-idle f fs fs' result result' more off e)
                (h, w, hits', work', p, ps', omega (arith, no_hits), omega arith)
                (omega (arith, sum, sum', no_hits)) (omega (arith, few, few'))
                λ m. (omega (arith, sum, no_hits, (none_left m).0), (none_left m).1)
        ]
        | inl on ↦ elim (run-Ran f h w on p) [
          | goes next w' ran on' p' less ↦ elim (sweep-Pendings fs result hs ws ps) [
            | swept fs' result' more hits' work' e ps' sum' few' none_left ↦
                swept (next ∷ fs') result' true (h + hits') (w' + work')
                  (sweep-busy f next fs fs' result result' false more on ran e)
                  (h, w', hits', work', p', ps', refl, omega arith) (omega (arith, sum, sum'))
                  (omega (arith, few, few', less)) λ m. cc m
          ]
          | ends next ran off' found more_left ↦
              elim (sweep-Pendings fs (if is_found next.state then result + 1 else result) hs ws
                ps) [
                  | swept fs' result' more hits' work' e ps' sum' few' none_left ↦
                      swept (next ∷ fs') result' true hits' work'
                        (sweep-busy f next fs fs' result result' true more on ran e)
                        (0, 0, hits', work', idle off' refl, ps', omega arith, omega arith)
                        (omega (arith, sum, sum', found, add_bit (is_found next.state) result))
                        (omega (arith, few, few', more_left)) λ m. cc m
                ]
        ]
      ]

  complete_all-next :
      (rounds : ℕ) (fs fs' : List Frame) (result result' : ℕ) (more : Bool)
      → sweep items fs result ≡ ok (fs', result', more)
      → complete_all (suc rounds) items fs result
        ≡ (if more then complete_all rounds items fs' result' else ok result')
  unfolding complete_all
  complete_all-next rounds fs fs' result result' true e = rw e
  complete_all-next rounds fs fs' result result' false e = rw e

  -- All searches are completed.
  pub complete_all-Pendings :
      (rounds : ℕ) (fs : List Frame) (result hits work : ℕ)
      → Pendings fs hits work
      → work < rounds
      → complete_all rounds items fs result ≡ ok (result + hits)
  complete_all-Pendings zero fs result hits work p enough = absurd (omega (arith, enough))
  complete_all-Pendings (suc rounds) fs result hits work p enough =
      elim (sweep-Pendings fs result hits work p) [
        | swept fs' result' true hits' work' e p' sum few none_left ↦
            complete_all-next rounds fs fs' result result' true e
            ∙ complete_all-Pendings rounds fs' result' hits' work' p' (omega (arith, few, enough))
            ∙ ap ok sum
        | swept fs' result' false hits' work' e p' sum few none_left ↦
            complete_all-next rounds fs fs' result result' false e
            ∙ ap ok (omega (arith, (none_left refl).0, (none_left refl).1))
      ]
