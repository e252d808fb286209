-- ===== src/Search/Frames.antt =====
-- applications/binary-search/state_machine.hpp: the lookups by several frames at a time.
use coroutines.Base.Int.{ℤ}
use coroutines.Base.{
  ℕ, zero, suc, ◌+◌, ◌-◌, ◌%◌, ◌^◌, Bool, true, false, List, [], ◌∷◌, Result, ok, err, no_fuel,
  ◌>>=◌, at, set, replicate, length, ◌==◌, if◌then◌else◌, ◌&&◌,
}
use coroutines.Search.Core.{Frame, new_frame, init, run, is_running, is_found}

-- `(0 == i) ? N : i - 1`
abbrev pub previous : ℕ → ℕ → ℕ
previous last i = if i == 0 then last else i - 1

-- The frame is initialized for the key, and the next frame is the one before.
abbrev pub restart : List ℤ → ℤ → ℕ → List Frame → ℕ → Frame → ℕ → List Frame × ℕ × ℕ
restart dataset key last frames i frame result =
    (set frames i (init 0 (length dataset) key frame), previous last i, result)

-- The loop `for (;;)`, which switches between the frames until one completes. The first argument
-- bounds its rounds.
unfoldable pub switch : ℕ → List ℤ → ℤ → ℕ → List Frame → ℕ → ℕ → Result (List Frame × ℕ × ℕ)
switch zero dataset key last frames i result = err no_fuel
switch (suc fuel) dataset key last frames i result = do
  frame ← at frames i
  (complete, next) ← run dataset frame
  elim complete [
    | true ↦ ok (
        restart dataset key last frames i next (if is_found next.state then result + 1 else result))
    | false ↦ switch fuel dataset key last (set frames i next) (previous last i) result
  ]

-- The body of the loop over the keys, and the loop.
unfoldable pub start_lookup : ℕ → List ℤ → ℤ → ℕ → List Frame → ℕ → ℕ → Result (List Frame × ℕ × ℕ)
start_lookup fuel dataset key last frames i result = do
  frame ← at frames i
  elim (is_running frame.state) [
    | false ↦ ok (restart dataset key last frames i frame result)
    | true ↦ switch fuel dataset key last frames i result
  ]

unfoldable pub start_lookups :
    ℕ → List ℤ → List ℤ → ℕ → List Frame → ℕ → ℕ → Result (List Frame × ℕ × ℕ)
start_lookups fuel dataset [] last frames i result = ok (frames, i, result)
start_lookups fuel dataset (key ∷ lookups) last frames i result = do
  (frames', i', result') ← start_lookup fuel dataset key last frames i result
  start_lookups fuel dataset lookups last frames' i' result'

-- The loop over the frames, with `result` and `more_work` at its end.
unfoldable pub sweep : List ℤ → List Frame → ℕ → Result (List Frame × ℕ × Bool)
sweep dataset [] result = ok ([], result, false)
sweep dataset (frame ∷ frames) result = elim (is_running frame.state) [
  | false ↦ do
    (rest, result', more_work) ← sweep dataset frames result
    ok (frame ∷ rest, result', more_work)
  | true ↦ do
    (complete, next) ← run dataset frame
    (rest, result', more_work) ←
        sweep dataset frames (if complete && is_found next.state then result + 1 else result)
    ok (next ∷ rest, result', true)
]

-- `do { ... } while (more_work)`
unfoldable pub complete_all : ℕ → List ℤ → List Frame → ℕ → Result ℕ
complete_all zero dataset frames result = err no_fuel
complete_all (suc rounds) dataset frames result = do
  (frames', result', more_work) ← sweep dataset frames result
  elim more_work [ true ↦ complete_all rounds dataset frames' result' | false ↦ ok result' ]

-- `&dataset[0]` is out of bounds on an empty dataset.
unfoldable pub state_machine_multi_lookup : (rounds fuel : ℕ) → List ℤ → List ℤ → ℕ → Result ℕ
state_machine_multi_lookup rounds fuel dataset lookups n_streams = do
  let last = (n_streams + 2 ^ 64 - 1) % 2 ^ 64
  beg ← at dataset 0
  (frames, i, result) ←
      start_lookups fuel dataset lookups last (replicate n_streams new_frame) last 0
  complete_all rounds dataset frames result
