-- ===== src/Map/Tests.antt =====
-- The map at keys that are their own hashes: test data, runs and the theorems at them.
use coroutines.Base.{
  true, false, ℕ, ◌≡◌, refl, ◌<◌, ◌≤◌, ◌/◌, length, none, some, [], ◌∷◌, ok, err, null_deref,
  dead_object, ◌>>=◌, Returns, at, ap, ==_iff, ◌==◌, arith, map,
}
use mathlib.Core.List.{Perm}
use coroutines.Streams.Ring.{new_ring, schedule, remove_next_task}
use coroutines.Streams.Throttle.{resume, spawn, spawn_all, run}
use coroutines.Streams.Complete.{new_streams}
use coroutines.Map.Stats.{stats, stats_loop, Depth, stats-IsValid}
use coroutines.Map.Interleaved.{
  lookup_task, interleaved_multilookup, interleaved-view, interleaved_overflow,
}
use coroutines.Map.Core.{
  Key, Entry, Bucket, Map, next_power_of_2, index_in, init_capacity, new_map, resize_required,
  insert_into_bucket, count,
}
use coroutines.Map.Operations.{
  bucket_index_for_key, find_entry, lookup, rehash_chain, rehash_buckets,
  perform_resize_if_required, add_entry, insert, assign_destroyed, assign_value, update, unlink,
  remove_entry, remove, sequential_multilookup,
}
use coroutines.Map.Chain.{find_in, occurs}
use coroutines.Map.Table.{entries, home, IsHome, Home_of}
use coroutines.Map.Valid.{view, IsValid, Resized, resize-Resized, new_map-IsValid}
use coroutines.Map.Lookup.{entry_of, sequential_multilookup-view}
use coroutines.Map.Insert.{Inserts, insert-Inserts}
use coroutines.Map.Update.{Updates, update-Updates}
use coroutines.Map.Remove.{chain_of}
use coroutines.Map.RemoveLost.{lookup-remove_second}
use coroutines.Map.Results.{
  get_key, removed, take_key, take_value, is_removed, read_back, insert_reads, update_reads,
  written-reads,
}
use coroutines.Map.RemoveCases.{Removal, remove-Removal}

instance abbrev nat_key : Key ℕ
nat_key = record { equal = ◌==◌; equal_iff = ==_iff; hasher = λ k. k }

program : Unit {0}
unfolding next_power_of_2 index_in init_capacity new_map resize_required insert_into_bucket
    bucket_index_for_key find_entry lookup rehash_chain rehash_buckets perform_resize_if_required
    add_entry insert assign_destroyed assign_value update unlink remove_entry remove
    sequential_multilookup find_in occurs count
program = tt

abbrev entry : ℕ → ℕ → Entry ℕ ℕ
entry k v = record { key = k; value = v }

-- Keys 1 and 9 share bucket 1 of 8.
abbrev chained : Map ℕ ℕ
chained = record {
  n_items = 2;
  capacity = 8;
  max_capacity = 64;
  buckets =
      record { first = []; n_items = 0 }
      ∷ record { first = entry 1 10 ∷ entry 9 90 ∷ []; n_items = 2 }
      ∷ record { first = []; n_items = 0 }
      ∷ record { first = []; n_items = 0 }
      ∷ record { first = []; n_items = 0 }
      ∷ record { first = []; n_items = 0 }
      ∷ record { first = []; n_items = 0 }
      ∷ record { first = []; n_items = 0 }
      ∷ [];
}

chained_runs :
    (do m ← new_map 64; (_, m₁) ← insert m 1 10; (_, m₂) ← insert m₁ 9 90; ok m₂) ≡ ok chained
unfolding program
chained_runs = refl

empty-IsHome : (i : ℕ) → IsHome {K = ℕ} {V = ℕ} 8 i (record { first = []; n_items = 0 })
unfolding program
empty-IsHome i = record { sized = refl; once = λ k. ground arith }

shared-IsHome : IsHome 8 1 (record { first = entry 1 10 ∷ entry 9 90 ∷ []; n_items = 2 })
unfolding program
shared-IsHome = record { sized = refl; once = λ k. ground arith }

chained-IsValid : IsValid chained
chained-IsValid = record {
  table = record {
    width = refl;
    positive = omega arith;
    small = omega arith;
    homes = (
      empty-IsHome 0,
      (
        shared-IsHome,
        (
          empty-IsHome 2,
          (
            empty-IsHome 3,
            (empty-IsHome 4, (empty-IsHome 5, (empty-IsHome 6, (empty-IsHome 7, tt)))),
          ),
        ),
      ),
    );
  };
  counted = refl;
  power = (3, refl);
  fits = omega arith;
  in_word = omega arith;
  sparse = λ h. omega arith;
}

new_map_run :
    Returns (new_map 64) λ (m : Map ℕ ℕ).
      IsValid m × (count m ≡ 0) × (m.max_capacity ≡ 64) × ((q : ℕ) → view m q ≡ none)
new_map_run = new_map-IsValid 64 (omega arith) (omega arith)

sequential_multilookup-view_run :
    sequential_multilookup chained (1 ∷ 5 ∷ [])
    ≡ ok (map (λ k. entry_of k (view chained k)) (1 ∷ 5 ∷ []))
sequential_multilookup-view_run = sequential_multilookup-view chained chained-IsValid (1 ∷ 5 ∷ [])

insert-Inserts_example : Returns (insert chained 17 170) (Inserts chained 17 170 (view chained 17))
unfolding count
insert-Inserts_example = insert-Inserts chained 17 170 chained-IsValid (omega arith)

update-Updates_example : Updates true chained 9 91 (view chained 9) (update true chained 9 91)
unfolding count
update-Updates_example = update-Updates true chained 9 91 chained-IsValid (omega arith)

-- A key that is there, of a value with a destructor.
update_destroyed_run : update false chained 9 91 ≡ err dead_object
unfolding program
update_destroyed_run = refl

-- The bucket of a key is the one that its index reads.
chain_at :
    (k : ℕ) (b : Bucket ℕ ℕ)
    → at chained.buckets (home 8 k) ≡ ok b
    → chain_of chained chained-IsValid k ≡ b.first
chain_at k b e =
    let same : (Home_of chained-IsValid.table k).bucket ≡ b =
      cc ((Home_of chained-IsValid.table k).there, e) in
    ap (λ (x : Bucket ℕ ℕ). x.first) same

chained_chain :
    (k : ℕ) → home 8 k ≡ 1 → chain_of chained chained-IsValid k ≡ entry 1 10 ∷ entry 9 90 ∷ []
chained_chain k e = chain_at k (record { first = entry 1 10 ∷ entry 9 90 ∷ []; n_items = 2 }) (rw e)

remove-Removal_example : Returns (remove chained 9) (Removal chained chained-IsValid 9)
unfolding program
remove-Removal_example = remove-Removal chained chained-IsValid 9 (omega arith)

lookup-remove_second_run : Returns (remove chained 9) λ r.
    (q : ℕ)
    → home {K = ℕ} chained.capacity q ≡ home {K = ℕ} chained.capacity 9
    → lookup r.1 q ≡ err null_deref
unfolding program
lookup-remove_second_run =
    lookup-remove_second chained chained-IsValid 9 (entry 1 10) (entry 9 90) (chained_chain 9 refl)
      refl (omega arith)

resize-Resized_example : Returns (perform_resize_if_required chained) (Resized chained)
unfolding program
resize-Resized_example =
    resize-Resized chained
      (record {
        table = chained-IsValid.table;
        counted = refl;
        power = (3, refl);
        fits = omega arith;
        in_word = omega arith;
        sparse = λ h. omega arith;
      })
      (omega arith)

interleaved_runs :
    interleaved_multilookup 3 20 4 2 chained (9 ∷ 2 ∷ 1 ∷ [])
    ≡ ok (none ∷ some (entry 9 90) ∷ some (entry 1 10) ∷ [])
unfolding program lookup_task interleaved_multilookup new_streams spawn_all spawn resume run
    new_ring schedule remove_next_task
interleaved_runs = refl

interleaved-view_example :
    (enough : ℕ) × ((rounds fuel : ℕ)
      → 2 < rounds
      → enough < fuel
      → Returns
          (interleaved_multilookup rounds fuel 4 2 chained (9 ∷ 2 ∷ 1 ∷ []))
          λ rs. Perm rs (map (λ k. entry_of k (view chained k)) (9 ∷ 2 ∷ 1 ∷ [])))
interleaved-view_example =
    interleaved-view 4 2 chained (9 ∷ 2 ∷ 1 ∷ []) chained-IsValid (omega arith) (omega arith)
      (omega arith)

interleaved_overflow_example : interleaved_multilookup 1 20 2 2 chained (9 ∷ 1 ∷ []) ≡ ok []
interleaved_overflow_example =
    interleaved_overflow 0 20 2 2 chained (9 ∷ 1 ∷ []) refl (omega arith) (omega arith)
      (omega arith)

depths_run : ((stats chained).max_bucket_depth ≡ 2) × ((stats chained).min_bucket_depth ≡ 0)
unfolding stats stats_loop
depths_run = (refl, refl)

stats-IsValid_example :
    ((stats chained).count ≡ length (entries chained.buckets))
    × ((i : ℕ) (b : Bucket ℕ ℕ)
        → at chained.buckets i ≡ ok b
        → ((stats chained).min_bucket_depth ≤ length b.first)
          × (length b.first ≤ (stats chained).max_bucket_depth))
    × Depth chained.buckets (stats chained).min_bucket_depth
    × Depth chained.buckets (stats chained).max_bucket_depth
    × ((stats chained).avg_bucket_depth ≡ length (entries chained.buckets) / chained.capacity)
stats-IsValid_example = stats-IsValid chained chained-IsValid (omega arith)

written-reads_example :
    (read_back (insert chained 9 91) 9 ≡ insert_reads 91 (view chained 9))
    × (read_back (update true chained 9 91) 9 ≡ update_reads true 91 (view chained 9))
unfolding count
written-reads_example = written-reads true chained 9 91 chained-IsValid (omega arith)

-- The results of a removal.
removed_run :
    (take_key (removed (some (entry 1 10))) ≡ ok 1)
    × (take_value (removed (some (entry 1 10))) ≡ ok 10)
    × (is_removed (removed {K = ℕ} {V = ℕ} none) ≡ false)
removed_run = (refl, refl, refl)

-- A lookup's result without an entry has no key.
missing_key : get_key {K = ℕ} {V = ℕ} none ≡ err null_deref
missing_key = refl
