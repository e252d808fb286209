-- ===== src/Search/Lookups.antt =====
-- The interleaved searches of applications/binary-search against the sequential one of manual.cpp.
use mathlib.Core.List.Perm
use mathlib.Core.List.{Perm}
use coroutines.Base.Int.{ℤ, ltb_ℤ, eqb_ℤ}
use coroutines.Base.{
  ℕ, zero, suc, ◌+◌, ◌-◌, ◌/◌, ◌≤◌, ◌<◌, ◌≡◌, refl, sym, ap, ◌∙◌, Bool, true, false, List, [], ◌∷◌,
  Result, ok, ◌>>=◌, >>=-eq-ok, at-total, length, ◌==◌, if◌then◌else◌, Bool-cases, inl, inr, map,
  arith,
}
use coroutines.Streams.Throttle.{Streams, spawn, spawn_all}
use coroutines.Streams.Turns.{Job, Outcome, done, more, frames, outs, total, Sound}
use coroutines.Streams.Complete.{new_streams, streams-Perm, run-idle}
use coroutines.Search.Core.{vanilla_loop, vanilla_binary_search}
use coroutines.Search.Vanilla.{vanilla_loop-zero, vanilla_round}
use coroutines.Search.Coroutines.{
  SearchFrame, begun, probing, to_prefetch, coro_binary_search, found_count, not_found_count,
  spawn_lookups, coro_multi_lookup,
}
use coroutines.Search.Infra.{queue_size, bind-eq, spawn_task-spawn, run_queue-run}

-- `test_vanilla` of manual.cpp: the lookups one after the other.
unfoldable pub test_vanilla_loop : ℕ → List ℤ → List ℤ → Result ℕ
test_vanilla_loop found dataset [] = ok found
test_vanilla_loop found dataset (key ∷ lookups) = do
  hit ← vanilla_binary_search dataset key
  test_vanilla_loop (if hit then found + 1 else found) dataset lookups

unfoldable pub test_vanilla : List ℤ → List ℤ → Result ℕ
test_vanilla dataset lookups = test_vanilla_loop 0 dataset lookups

-- The plain search ends, on sorted arrays and others.
pub vanilla_loop-Returns :
    (fuel : ℕ) (items : List ℤ) (first len : ℕ) (key : ℤ)
    → len < fuel
    → first + len ≤ length items
    → (b : Bool) × (vanilla_loop fuel items first len key ≡ ok b)
vanilla_loop-Returns zero items first len key enough fits = absurd (omega arith)
vanilla_loop-Returns (suc fuel) items first zero key enough fits =
    (false, vanilla_loop-zero fuel items first key)
vanilla_loop-Returns (suc fuel) items first (suc n) key enough fits =
    let len = suc n in
    let (x, read) = at-total items (first + len / 2) (omega arith) in
    let round = vanilla_round fuel items first len key x (omega arith) read in
    elim (Bool-cases (eqb_ℤ x key)) [
      | inl hit ↦ (true, rw hit at round)
      | inr miss ↦ elim (Bool-cases (ltb_ℤ x key)) [
        | inl below ↦
            let (b, e) =
              vanilla_loop-Returns fuel items (first + len / 2 + 1) (len - len / 2 - 1) key
                (omega arith) (omega arith) in
            (b, (rw (miss, below) at round) ∙ e)
        | inr above ↦
            let (b, e) =
              vanilla_loop-Returns fuel items first (len / 2) key (omega arith) (omega arith) in
            (b, (rw (miss, above) at round) ∙ e)
      ]
    ]

-- The counts do not depend on the order of the answers.
found_count-Perm : {xs ys : List Bool} → Perm xs ys → found_count xs ≡ found_count ys
found_count-Perm p = Perm.foldr-eq (hlevel) _ comm p 0
  where
    comm :
        (a b : Bool) (n : ℕ)
        → (if a then suc (if b then suc n else n) else if b then suc n else n)
          ≡ (if b then suc (if a then suc n else n) else if a then suc n else n)
    comm true true n = refl
    comm true false n = refl
    comm false true n = refl
    comm false false n = refl

not_found_count-Perm : {xs ys : List Bool} → Perm xs ys → not_found_count xs ≡ not_found_count ys
not_found_count-Perm p = Perm.foldr-eq (hlevel) _ comm p 0
  where
    comm :
        (a b : Bool) (n : ℕ)
        → (if a then if b then n else suc n else suc (if b then n else suc n))
          ≡ (if b then if a then n else suc n else suc (if a then n else suc n))
    comm true true n = refl
    comm true false n = refl
    comm false true n = refl
    comm false false n = refl

module _ (items : List ℤ) where
  -- A coroutine that comes to the test of its loop goes on as the plain search does from there.
  loop-Outcome :
      (fuel : ℕ) (t : SearchFrame) (first len : ℕ) (key : ℤ) (b : Bool)
      → coro_binary_search items t ≡ ok (to_prefetch first len key)
      → vanilla_loop fuel items first len key ≡ ok b
      → first + len ≤ length items
      → Outcome (coro_binary_search items) t b fuel
  unfolding coro_binary_search vanilla_loop
  loop-Outcome zero t first len key b e found fits = cc found
  loop-Outcome (suc fuel) t first zero key b e found fits = done (e ∙ cc found)
  loop-Outcome (suc fuel) t first (suc n) key b e found fits =
      let len = suc n in
      let (x, read) = at-total items (first + len / 2) (omega arith) in
      let round = sym (vanilla_round fuel items first len key x (omega arith) read) ∙ found in
      more {u = probing first len key} (e ∙ ground arith) (elim (Bool-cases (eqb_ℤ x key)) [
        | inl hit ↦ done (rw (read, hit) (cc (rw hit at round)))
        | inr miss ↦ elim (Bool-cases (ltb_ℤ x key)) [
          | inl below ↦
              loop-Outcome fuel (probing first len key) (first + len / 2 + 1) (len - len / 2 - 1)
                key b (rw (read, miss, below)) (rw (miss, below) at round) (omega arith)
          | inr above ↦
              loop-Outcome fuel (probing first len key) first (len / 2) key b
                (rw (read, miss, above)) (rw (miss, above) at round) (omega arith)
        ]
      ])

  spawn_lookups-spawn_all :
      (fuel : ℕ) (lookups : List ℤ) (t : Streams SearchFrame Bool)
      → spawn_lookups fuel items lookups t
        ≡ spawn_all (coro_binary_search items) fuel (map (begun 0 (length items)) lookups) t
  unfolding spawn_lookups spawn_all
  spawn_lookups-spawn_all fuel [] t = refl
  spawn_lookups-spawn_all fuel (key ∷ lookups) t =
      rw (spawn_task-spawn (coro_binary_search items) fuel (begun 0 (length items) key) t) (
        bind-eq (spawn (coro_binary_search items) fuel (begun 0 (length items) key) t) _ _
          (spawn_lookups-spawn_all fuel lookups))

  -- The tasks of the lookups, with the answers, which `test_vanilla` counts.
  jobs_of :
      (found : ℕ) (lookups : List ℤ)
      → (js : List (Job SearchFrame Bool)) × Sound (coro_binary_search items) js
        × (frames js ≡ map (begun 0 (length items)) lookups)
        × (length (outs js) ≡ length lookups)
        × (test_vanilla_loop found items lookups ≡ ok (found_count (outs js) + found))
  unfolding test_vanilla_loop vanilla_binary_search coro_binary_search
  jobs_of found [] = ([], tt, refl, refl, ap ok (omega arith))
  jobs_of found (key ∷ lookups) =
      let n = length items in
      let (b, e) = vanilla_loop-Returns (suc n) items 0 n key (omega arith) (omega arith) in
      let (js, sound, tasks, many, counted) = jobs_of (if b then found + 1 else found) lookups in
      (
        record { task = begun 0 n key; out = b; steps = suc n } ∷ js,
        (loop-Outcome (suc n) (begun 0 n key) 0 n key b refl e (omega arith), sound),
        ap (λ ts. begun 0 n key ∷ ts) tasks,
        ap suc many,
        rw e (counted ∙ ap ok (count b (found_count (outs js)))),
      )
    where
      count :
          (b : Bool) (c : ℕ)
          → c + (if b then found + 1 else found) ≡ (if b then suc c else c) + found
      count true c = omega arith
      count false c = refl

  counts-length : (os : List Bool) → found_count os + not_found_count os ≡ length os
  counts-length [] = omega arith
  counts-length (true ∷ os) = omega (arith, counts-length os)
  counts-length (false ∷ os) = omega (arith, counts-length os)

  coro-jobs :
      (rounds fuel n_streams : ℕ) (lookups : List ℤ) (js : List (Job SearchFrame Bool))
      → Sound (coro_binary_search items) js
      → frames js ≡ map (begun 0 (length items)) lookups
      → length (outs js) ≡ length lookups
      → 0 < n_streams
      → n_streams < queue_size
      → total js < fuel
      → n_streams < rounds
      → coro_multi_lookup rounds fuel n_streams items lookups ≡ ok (found_count (outs js))
  unfolding coro_multi_lookup
  coro-jobs zero fuel n_streams lookups js sound tasks many streams few enough most =
      absurd (omega arith)
  coro-jobs (suc rounds) fuel n_streams lookups js sound tasks many streams few enough most =
      let body = coro_binary_search items in
      let (s, e, ends) =
        streams-Perm body queue_size n_streams (suc rounds) fuel js sound streams few (omega arith)
          enough most in
      let (spawned, e', e'') =
        >>=-eq-ok (spawn_all body fuel (frames js) (new_streams queue_size n_streams)) _ e in
      let again = run-idle body queue_size n_streams rounds fuel s ends.2 in
      let hits : found_count s.results ≡ found_count (outs js) = found_count-Perm ends.0 in
      let misses : not_found_count s.results ≡ not_found_count (outs js) =
        not_found_count-Perm ends.0 in
      let complete : ((found_count (outs js) + not_found_count (outs js)) == length lookups)
          ≡ true =
        ground (arith, counts-length (outs js), many) in
      rw (
        spawn_lookups-spawn_all fuel lookups (new_streams queue_size n_streams),
        ← tasks,
        e',
        run_queue-run body (suc rounds) fuel spawned,
        e'',
        hits,
        misses,
        complete,
        run_queue-run body (suc rounds) fuel s,
        again,
      )

-- With at least one stream and fewer than 256, on every dataset and all lookups, there is a fuel
-- above which `coro_multi_lookup` ends with its assertion met and returns the number that
-- `test_vanilla` counts.
pub coro-vanilla :
    (n_streams : ℕ) (dataset lookups : List ℤ)
    → 0 < n_streams
    → n_streams < queue_size
    → (enough : ℕ) × ((rounds fuel : ℕ)
        → n_streams < rounds
        → enough < fuel
        → coro_multi_lookup rounds fuel n_streams dataset lookups ≡ test_vanilla dataset lookups)
unfolding test_vanilla
coro-vanilla n_streams dataset lookups streams few =
    let (js, sound, tasks, many, counted) = jobs_of dataset 0 lookups in
    (
      total js,
      λ rounds fuel most enough.
          coro-jobs dataset rounds fuel n_streams lookups js sound tasks many streams few enough
            most
          ∙ sym (counted ∙ ap ok (omega arith)),
    )
