-- ===== src/Search/Core.antt =====
-- applications/binary-search/vanilla.hpp and state_machine.hpp: the searches.
use coroutines.Base.Int.{ℤ, ltb_ℤ, eqb_ℤ}
use coroutines.Base.{
  ℕ, zero, suc, ◌+◌, ◌-◌, ◌/◌, Bool, true, false, Option, none, some, List, Result, ok, err,
  null_deref, no_fuel, ◌>>=◌, at, length, ltb, ◌==◌, if◌then◌else◌,
}

-- The loop of `vanilla_binary_search`; positions in the array stand for the iterators.
unfoldable pub vanilla_loop : ℕ → List ℤ → ℕ → ℕ → ℤ → Result Bool
vanilla_loop zero items first len val = err no_fuel
vanilla_loop (suc fuel) items first len val = elim (ltb 0 len) [
  | false ↦ ok false
  | true ↦ do
    let half = len / 2
    let middle = first + half
    middle_key ← at items middle
    let below = ltb_ℤ middle_key val
    let first' = if below then middle + 1 else first
    let len' = if below then len - half - 1 else half
    let rest = vanilla_loop fuel items first' len' val
    if eqb_ℤ middle_key val then ok true else rest
]

-- The search of the whole array. The length falls in each round, so it bounds the rounds.
unfoldable pub vanilla_binary_search : List ℤ → ℤ → Result Bool
vanilla_binary_search items val = vanilla_loop (suc (length items)) items 0 (length items) val

-- `Frame::State`
pub data State : Type 0 where
  keep_going found not_found empty : State

-- `Frame`. A pointer is a position in the array, or null.
pub record Frame : Type 0 where
  pub first : Option ℕ
  pub last : Option ℕ
  pub middle : Option ℕ
  pub len : ℕ
  pub half : ℕ
  pub val : ℤ
  pub state : State

-- `Frame f{}`
abbrev pub new_frame : Frame
new_frame = record {
  first = none;
  last = none;
  middle = none;
  len = 0;
  half = 0;
  val = ℤ.pos 0;
  state = empty;
}

-- `init` over the positions from `first` up to `last`; `prefetch` has no effect on the result.
unfoldable pub init : ℕ → ℕ → ℤ → Frame → Frame
init first last key frame =
    let len = last - first in
    let ready : Frame = record frame {
      val = key;
      first = some first;
      last = some last;
      len = len;
    } in
    if len == 0
    then record ready { state = not_found }
    else record ready { half = len / 2; middle = some (first + len / 2); state = keep_going }

-- `*p`
abbrev pub deref : List ℤ → Option ℕ → Result ℤ
deref items none = err null_deref
deref items (some i) = at items i

-- Where the pointer `first` goes when the probe is below the value: `first = middle; ++first`.
abbrev pub advance : Option ℕ → Option ℕ
advance none = none
advance (some i) = some (i + 1)

-- `middle = first + half`
abbrev pub plus : Option ℕ → ℕ → Option ℕ
plus none k = none
plus (some i) k = some (i + k)

unfoldable pub run : List ℤ → Frame → Result (Bool × Frame)
run items frame = do
  x ← deref items frame.middle
  let below = ltb_ℤ x frame.val
  let first = if below then advance frame.middle else frame.first
  let len = if below then frame.len - frame.half - 1 else frame.half
  let narrowed : Frame = record frame { first = first; len = len }
  let probing : Frame = record narrowed { half = len / 2; middle = plus first (len / 2) }
  if eqb_ℤ x frame.val
      then ok (true, record narrowed { state = found })
      else if ltb 0 len
      then ok (false, probing)
      else ok (true, record narrowed { state = not_found })

abbrev pub is_running : State → Bool
is_running keep_going = true
is_running found = false
is_running not_found = false
is_running empty = false

abbrev pub is_found : State → Bool
is_found found = true
is_found keep_going = false
is_found not_found = false
is_found empty = false

-- `while (KEEP_GOING == f.state) f.run();`
unfoldable pub machine_loop : ℕ → List ℤ → Frame → Result Frame
machine_loop zero items frame = err no_fuel
machine_loop (suc fuel) items frame = elim (is_running frame.state) [
  | false ↦ ok frame
  | true ↦ do (_, next) ← run items frame; machine_loop fuel items next
]

unfoldable pub state_machine_binary_search : List ℤ → ℤ → Result Bool
state_machine_binary_search items key = do
  frame ← machine_loop (suc (suc (length items))) items (init 0 (length items) key new_frame)
  ok (is_found frame.state)
