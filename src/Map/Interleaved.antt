-- ===== src/Map/Interleaved.antt =====
-- applications/map/map.hpp: the lookup tasks and the interleaved multilookup, over the scheduler and
-- the throttler of scheduler.hpp and throttler.hpp.
use mathlib.Core.List.{Perm}
use coroutines.Base.{
  ℕ, zero, suc, ◌≤◌, ◌<◌, ◌^◌, ◌≡◌, refl, ◌∙◌, ap, subst, false, Option, none, some, List, [], ◌∷◌,
  Result, ok, err, null_deref, ◌>>=◌, >>=-eq-ok, Returns, at, length, length-map, ◌==◌,
  if◌then◌else◌, Bool-cases, inl, inr, map, arith,
}
use coroutines.Streams.Throttle.{Turn, suspends, returns, Streams, spawn_all, run}
use coroutines.Streams.Turns.{Job, Outcome, done, more, frames, outs, total, Sound}
use coroutines.Streams.Ring.{new_ring, has_next}
use coroutines.Streams.Complete.{new_streams, streams-Perm, run-idle}
use coroutines.Streams.Overflow.{streams_overflow}
use coroutines.Map.Core.{Key, Entry, Map}
use coroutines.Map.Operations.{bucket_index_for_key, find_entry, lookup, sequential_multilookup}
use coroutines.Map.Valid.{view, IsValid}
use coroutines.Map.Lookup.{entry_of, sequential_multilookup-view}

-- Where a lookup task is suspended: at its start, or at the prefetch of the entry that heads a
-- chain.
pub data LookupFrame (K V : Type 0) : Type 0 where
  started : K → LookupFrame K V
  prefetched : K → List (Entry K V) → LookupFrame K V

module _ {K V : Type 0} ⦃ops : Key K⦄ where
  -- The body of `lookup_task` from one suspension to the next. The callbacks `on_found` and
  -- `on_not_found` write the result that is returned here.
  unfoldable pub lookup_task :
      Map K V → LookupFrame K V → Result (Turn (LookupFrame K V) (Option (Entry K V)))
  lookup_task m (started key) = do
    bucket ← at m.buckets (bucket_index_for_key m key)
    if bucket.n_items == 0 then ok (returns none) else ok (suspends (prefetched key bucket.first))
  lookup_task m (prefetched key []) = err null_deref
  lookup_task m (prefetched key (entry ∷ [])) =
      if ops.equal key entry.key then ok (returns (some entry)) else ok (returns none)
  lookup_task m (prefetched key (entry ∷ next ∷ rest)) =
      if ops.equal key entry.key
      then ok (returns (some entry))
      else ok (suspends (prefetched key (next ∷ rest)))

  -- `interleaved_multilookup` with a new scheduler of `depth` places. The throttler's destructor
  -- runs the scheduler again. `rounds` and `fuel` bound the loops.
  unfoldable pub interleaved_multilookup :
      (rounds fuel depth n_streams : ℕ) → Map K V → List K → Result (List (Option (Entry K V)))
  interleaved_multilookup rounds fuel depth n_streams m keys = do
    let tasks = map started keys
    spawned ← spawn_all (lookup_task m) fuel tasks (new_streams depth n_streams)
    ran ← run (lookup_task m) rounds fuel spawned
    destroyed ← run (lookup_task m) rounds fuel ran
    ok destroyed.results

  returned :
      {a o : Option (Entry K V)}
      → ◌≡◌ {A = Result (Option (Entry K V))} (ok a) (ok o)
      → ◌≡◌ {A = Result (Turn (LookupFrame K V) (Option (Entry K V)))}
          (ok (returns a))
          (ok (returns o))
  returned e = cc

  -- A task alone walks the chain as `lookup` does.
  prefetched-Outcome :
      (m : Map K V) (key : K) (chain : List (Entry K V)) (o : Option (Entry K V))
      → find_entry key chain ≡ ok o
      → Outcome (lookup_task m) (prefetched key chain) o (length chain)
  unfolding find_entry lookup_task
  prefetched-Outcome m key [] o e = cc e
  prefetched-Outcome m key (entry ∷ []) o e = elim (Bool-cases (ops.equal key entry.key)) [
    | inl hit ↦ done (rw hit (returned (rw hit at e)))
    | inr miss ↦ done (rw miss (returned (rw miss at e)))
  ]
  prefetched-Outcome m key (entry ∷ next ∷ rest) o e = elim (Bool-cases (ops.equal key entry.key)) [
    | inl hit ↦ done (rw hit (returned (rw hit at e)))
    | inr miss ↦ more (rw miss) (prefetched-Outcome m key (next ∷ rest) o (rw miss at e))
  ]

  started-Outcome :
      (m : Map K V) (key : K) (o : Option (Entry K V))
      → lookup m key ≡ ok o
      → (n : ℕ) × Outcome (lookup_task m) (started key) o n
  unfolding lookup lookup_task
  started-Outcome m key o e =
      let (bucket, there, rest) = >>=-eq-ok (at m.buckets (bucket_index_for_key m key)) _ e in
      elim (Bool-cases (bucket.n_items == 0)) [
        | inl vacant ↦ (0, done (rw (there, vacant) (returned (rw vacant at rest))))
        | inr filled ↦ (
          suc (length bucket.first),
          more (rw (there, filled)) (prefetched-Outcome m key bucket.first o (rw filled at rest)),
        )
      ]

  -- The tasks of a multilookup, with what the sequential one returns.
  jobs_of :
      (m : Map K V) (keys : List K) (os : List (Option (Entry K V)))
      → sequential_multilookup m keys ≡ ok os
      → (js : List (Job (LookupFrame K V) (Option (Entry K V)))) × Sound (lookup_task m) js
        × (frames js ≡ map started keys)
        × (outs js ≡ os)
  unfolding sequential_multilookup
  jobs_of m [] os e = ([], tt, refl, cc e)
  jobs_of m (key ∷ keys) os e =
      let (o, first, e') = >>=-eq-ok (lookup m key) _ e in
      let (os', others, e'') = >>=-eq-ok (sequential_multilookup m keys) _ e' in
      let (js, sound, tasks, results) = jobs_of m keys os' others in
      let (n, outcome) = started-Outcome m key o first in
      (
        record { task = started key; out = o; steps = n } ∷ js,
        (outcome, sound),
        ap (λ ts. started key ∷ ts) tasks,
        ap (λ rs. o ∷ rs) results ∙ cc e'',
      )

  -- The loops of the interleaved multilookup end, with the results of the tasks.
  interleaved-jobs :
      (rounds fuel depth n_streams : ℕ) (m : Map K V) (keys : List K)
      (js : List (Job (LookupFrame K V) (Option (Entry K V))))
      → Sound (lookup_task m) js
      → frames js ≡ map started keys
      → 0 < n_streams
      → n_streams < depth
      → n_streams < 2 ^ 64
      → total js < fuel
      → n_streams < rounds
      → Returns (interleaved_multilookup rounds fuel depth n_streams m keys) λ rs. Perm rs (outs js)
  unfolding interleaved_multilookup
  interleaved-jobs zero fuel depth n_streams m keys js sound tasks streams few small enough most =
      absurd (omega arith)
  interleaved-jobs (suc rounds) fuel depth n_streams m keys js sound tasks streams few small enough
        most =
      let (s, e, ends) =
        streams-Perm (lookup_task m) depth n_streams (suc rounds) fuel js sound streams few small
          enough most in
      let (spawned, e', e'') =
        >>=-eq-ok (spawn_all (lookup_task m) fuel (frames js) (new_streams depth n_streams)) _ e in
      let again = run-idle (lookup_task m) depth n_streams rounds fuel s ends.2 in
      (s.results, rw (← tasks, e', e'', again), ends.0)

  pub interleaved-sequential :
      (depth n_streams : ℕ) (m : Map K V) (keys : List K) (os : List (Option (Entry K V)))
      → sequential_multilookup m keys ≡ ok os
      → 0 < n_streams
      → n_streams < depth
      → n_streams < 2 ^ 64
      → (enough : ℕ) × ((rounds fuel : ℕ)
          → n_streams < rounds
          → enough < fuel
          → Returns (interleaved_multilookup rounds fuel depth n_streams m keys) λ rs. Perm rs os)
  interleaved-sequential depth n_streams m keys os e streams few small =
      let (js, sound, tasks, results) = jobs_of m keys os e in
      (
        total js,
        λ rounds fuel most enough.
            subst
              (λ l.
                Returns (interleaved_multilookup rounds fuel depth n_streams m keys)
                  λ rs. Perm rs l)
              results
              (interleaved-jobs rounds fuel depth n_streams m keys js sound tasks streams few small
                enough most),
      )

  -- On a valid map, with at least one stream and fewer streams than the scheduler has places,
  -- there is a fuel above which `interleaved_multilookup` ends without a fault, and its results
  -- are, in some order, those of the keys in the abstract map: each key with its value, or
  -- nothing.
  pub interleaved-view :
      (depth n_streams : ℕ) (m : Map K V) (keys : List K)
      → IsValid m
      → 0 < n_streams
      → n_streams < depth
      → n_streams < 2 ^ 64
      → (enough : ℕ) × ((rounds fuel : ℕ)
          → n_streams < rounds
          → enough < fuel
          → Returns
              (interleaved_multilookup rounds fuel depth n_streams m keys)
              λ rs. Perm rs (map (λ k. entry_of k (view m k)) keys))
  interleaved-view depth n_streams m keys v streams few small =
      interleaved-sequential depth n_streams m keys _ (sequential_multilookup-view m v keys) streams
        few small

  idle-interleaved :
      (rounds fuel depth n_streams : ℕ) (m : Map K V) (keys : List K)
      (s : Streams (LookupFrame K V) (Option (Entry K V)))
      → spawn_all (lookup_task m) fuel (map started keys) (new_streams depth n_streams) ≡ ok s
      → has_next s.ring ≡ false
      → interleaved_multilookup (suc rounds) fuel depth n_streams m keys ≡ ok s.results
  unfolding interleaved_multilookup
  idle-interleaved rounds fuel depth n_streams m keys s e idle =
      let again = run-idle (lookup_task m) depth n_streams rounds fuel s idle in
      rw (e, again, again)

  -- Where the number of keys is the number of places of the scheduler, at least one, and the
  -- streams are as many or more, fewer than 2 ^ 64, `interleaved_multilookup` ends without a fault
  -- and with no result at all, since the full ring counts as empty.
  pub interleaved_overflow :
      (rounds fuel depth n_streams : ℕ) (m : Map K V) (keys : List K)
      → length keys ≡ depth
      → 0 < depth
      → depth ≤ n_streams
      → n_streams < 2 ^ 64
      → interleaved_multilookup (suc rounds) fuel depth n_streams m keys ≡ ok []
  unfolding new_streams new_ring
  interleaved_overflow rounds fuel depth n_streams m keys full some_keys many small =
      let body = lookup_task m in
      let waiting : List (LookupFrame K V) = map started keys in
      let tasks : length waiting ≡ depth = length-map {B = LookupFrame K V} started keys ∙ full in
      let (s, e, ends) =
        streams_overflow body fuel waiting (new_streams depth n_streams)
          (omega (arith, tasks, some_keys)) (omega (arith, tasks)) (omega (arith, tasks, many))
          small in
      let idle : has_next s.ring ≡ false = ground (arith, ends.0, ends.1) in
      idle-interleaved rounds fuel depth n_streams m keys s e idle ∙ ap ok ends.2
