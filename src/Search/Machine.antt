-- ===== src/Search/Machine.antt =====
-- The state machine of applications/binary-search/state_machine.hpp and the plain search.
use coroutines.Base.Int.{ℤ, ltb_ℤ, eqb_ℤ}
use coroutines.Base.{
  ℕ, zero, suc, ◌+◌, ◌-◌, ◌/◌, ◌≤◌, ◌<◌, ◌≡◌, refl, ◌∙◌, inl, inr, Bool, true, false, Option, some,
  List, [], ◌∷◌, Result, ok, Returns, at-total, length, ltb, if◌then◌else◌, Bool-cases, dec_lt,
  arith,
}
use coroutines.Search.Core.{
  vanilla_loop, vanilla_binary_search, State, keep_going, found, not_found, Frame, new_frame, init,
  run, is_running, is_found, machine_loop, state_machine_binary_search,
}
use coroutines.Search.Vanilla.{vanilla_loop-zero, vanilla_round}

-- A frame that is searching `len` positions from `first` on.
abbrev pub searching : Option ℕ → ℕ → ℕ → ℤ → Frame
searching last first len val = record {
  first = some first;
  last = last;
  middle = some (first + len / 2);
  len = len;
  half = len / 2;
  val = val;
  state = keep_going;
}

-- What one call of `run` makes of a searching frame: it goes on with a shorter range, or it is
-- finished and the plain search from the same range has the same answer.
pub data Runs (items : List ℤ) (last : Option ℕ) (first len fuel : ℕ) (val : ℤ)
    (r : Result (Bool × Frame)) : Type 0 where
  goes_on :
      (first' len' : ℕ)
      → 0 < len'
      → len' < len
      → first' + len' ≤ length items
      → r ≡ ok (false, searching last first' len' val)
      → vanilla_loop (suc fuel) items first len val ≡ vanilla_loop fuel items first' len' val
      → Runs items last first len fuel val r
  finishes :
      (f : Frame)
      → r ≡ ok (true, f)
      → is_running f.state ≡ false
      → (0 < fuel → vanilla_loop (suc fuel) items first len val ≡ ok (is_found f.state))
      → Runs items last first len fuel val r

loop_nothing :
    (fuel : ℕ) (items : List ℤ) (first len : ℕ) (val : ℤ)
    → 0 < fuel
    → len ≡ 0
    → vanilla_loop fuel items first len val ≡ ok false
loop_nothing zero items first len val h e = absurd (omega arith)
loop_nothing (suc fuel) items first len val h e = rw e (vanilla_loop-zero fuel items first val)

-- A frame whose search has ended.
stopped : Option ℕ → ℕ → ℕ → ℤ → ℕ → ℕ → State → Frame
stopped last first len val first' len' state = record (searching last first len val) {
  first = some first';
  len = len';
  state = state;
}

pub run-Runs :
    (items : List ℤ) (last : Option ℕ) (first len fuel : ℕ) (val : ℤ)
    → 0 < len
    → first + len ≤ length items
    → Runs items last first len fuel val (run items (searching last first len val))
unfolding run stopped
run-Runs items last first len fuel val pos fits =
    let (x, read) = at-total items (first + len / 2) (omega arith) in
    let round = vanilla_round fuel items first len val x pos read in
    elim (Bool-cases (eqb_ℤ x val)) [
      | inl hit ↦
          finishes
            (stopped last first len val (if ltb_ℤ x val then first + len / 2 + 1 else first)
              (if ltb_ℤ x val then len - len / 2 - 1 else len / 2) found)
            (ground (arith, read, hit)) refl (λ _. rw hit at round)
      | inr miss ↦ elim (Bool-cases (ltb_ℤ x val)) [
        | inl below ↦ elim (Bool-cases (ltb 0 (len - len / 2 - 1))) [
          | inl more ↦
              goes_on (first + len / 2 + 1) (len - len / 2 - 1) (ground arith) (omega arith)
                (omega arith) (rw (read, miss, below, more)) (rw (miss, below) at round)
          | inr done ↦
              finishes
                (stopped last first len val (first + len / 2 + 1) (len - len / 2 - 1) not_found)
                (rw (read, miss, below, done)) refl
                (λ h.
                  (rw (miss, below) at round)
                  ∙ loop_nothing fuel items _ (len - len / 2 - 1) val h (ground arith))
        ]
        | inr above ↦ elim (Bool-cases (ltb 0 (len / 2))) [
          | inl more ↦
              goes_on first (len / 2) (ground arith) (omega arith) (omega arith)
                (rw (read, miss, above, more)) (rw (miss, above) at round)
          | inr done ↦
              finishes (stopped last first len val first (len / 2) not_found)
                (rw (read, miss, above, done)) refl
                (λ h.
                  (rw (miss, above) at round)
                  ∙ loop_nothing fuel items _ (len / 2) val h (ground arith))
        ]
      ]
    ]

machine_loop-stopped :
    (fuel : ℕ) (items : List ℤ) (f : Frame)
    → is_running f.state ≡ false
    → machine_loop (suc fuel) items f ≡ ok f
unfolding machine_loop
machine_loop-stopped fuel items f ended = rw (ended, machine_loop)

machine_loop-run :
    (fuel : ℕ) (items : List ℤ) (last : Option ℕ) (first len : ℕ) (val : ℤ) (b : Bool) (f : Frame)
    → run items (searching last first len val) ≡ ok (b, f)
    → machine_loop (suc fuel) items (searching last first len val) ≡ machine_loop fuel items f
unfolding machine_loop
machine_loop-run fuel items last first len val b f e = rw e

-- The loop over `run` ends, in a frame that tells the answer of the plain search.
machine_loop-vanilla :
    (fuel : ℕ) (items : List ℤ) (last : Option ℕ) (first len : ℕ) (val : ℤ)
    → 0 < len
    → len < fuel
    → first + len ≤ length items
    → Returns
        (machine_loop (suc fuel) items (searching last first len val))
        λ f. vanilla_loop fuel items first len val ≡ ok (is_found f.state)
machine_loop-vanilla zero items last first len val pos enough fits = absurd (omega arith)
machine_loop-vanilla (suc fuel) items last first len val pos enough fits =
    elim (run-Runs items last first len fuel val pos fits) [
      | finishes f e ended same ↦ (
        f,
        machine_loop-run (suc fuel) items last first len val true f e
            ∙ machine_loop-stopped fuel items f ended,
        same (omega arith),
      )
      | goes_on first' len' pos' shorter fits' e same ↦
          let (f, ends, answer) =
            machine_loop-vanilla fuel items last first' len' val pos' (omega arith) fits' in
          (f, machine_loop-run (suc fuel) items last first len val false _ e ∙ ends, same ∙ answer)
    ]

init-searching :
    (len : ℕ) (key : ℤ) → 0 < len → init 0 len key new_frame ≡ searching (some len) 0 len key
unfolding init
init-searching len key pos = ground arith

state_machine-empty :
    (items : List ℤ) (key : ℤ)
    → length items ≡ 0
    → state_machine_binary_search items key ≡ vanilla_binary_search items key
unfolding state_machine_binary_search vanilla_binary_search init vanilla_loop machine_loop
state_machine-empty [] key e = refl
state_machine-empty (x ∷ items) key e = absurd (omega (arith, e))

-- On every array and key, sorted or not, the state machine run alone gives the result of the plain
-- search.
pub state_machine-vanilla :
    (items : List ℤ) (key : ℤ)
    → state_machine_binary_search items key ≡ vanilla_binary_search items key
unfolding state_machine_binary_search vanilla_binary_search
state_machine-vanilla items key = elim (dec_lt 0 (length items)) [
  | no none_left ↦ state_machine-empty items key (omega arith)
  | yes pos ↦
      let (f, ends, answer) =
        machine_loop-vanilla (suc (length items)) items (some (length items)) 0 (length items) key
          pos (omega arith) (omega arith) in
      rw (init-searching (length items) key pos, ends, answer)
]
