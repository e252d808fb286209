-- ===== src/Map/Operations.antt =====
-- applications/map/map.hpp: lookup, insert, update, remove, the resize and the sequential
-- multilookup. A chain that the code reaches through a reference is written back to the array.
use coroutines.Base.{
  ℕ, ◌+◌, ◌*◌, Bool, true, false, Option, none, some, List, [], ◌∷◌, ◌++◌, Result, ok, err,
  null_deref, dead_object, ◌>>=◌, at, set, replicate, ◌==◌, if◌then◌else◌,
}
use coroutines.Map.Core.{
  Key, Entry, Bucket, Map, word, decrement, index_in, empty_bucket, resize_required,
  insert_into_bucket,
}

-- What a pointer of a result refers to: an entry of the map with what it holds, the caller's key, or
-- the by-value parameter `value`, which is gone when the call returns.
pub data Referent (A : Type 0) : Type 0 where
  to_entry to_argument : A → Referent A
  to_parameter : Referent A

-- `InsertKVResult`: its two pointers, and whether the pair was inserted.
pub record InsertResult (K V : Type 0) : Type 0 where
  pub key : Referent K
  pub value : Referent V
  pub inserted : Bool

-- `InsertKVResult{key, value, true}` with the parameters of `insert` and `update`.
abbrev pub new_result : {K V : Type 0} → K → InsertResult K V
new_result key = record { key = to_argument key; value = to_parameter; inserted = true }

-- `InsertKVResult{entry->key, entry->value, inserted}`
abbrev pub entry_result : {K V : Type 0} → K → V → Bool → InsertResult K V
entry_result key value inserted = record {
  key = to_entry key;
  value = to_entry value;
  inserted = inserted;
}

-- `entry->value.~ValueT(); entry->value = value`: the assignment is to an object whose destructor was
-- called, which is undefined unless that destructor is trivial; the value that is assigned.
unfoldable pub assign_destroyed : {V : Type 0} → Bool → V → Result V
assign_destroyed trivial value = if trivial then ok value else err dead_object

module _ {K V : Type 0} ⦃ops : Key K⦄ where
  unfoldable pub bucket_index_for_key : Map K V → K → ℕ
  bucket_index_for_key m key = index_in m.capacity (ops.hasher key)

  -- The loop over a chain that `lookup`, `insert`, `update` and `remove` share: the first entry
  -- of the key, if any. It reads `entry->key` before it tests a pointer.
  unfoldable pub find_entry : K → List (Entry K V) → Result (Option (Entry K V))
  find_entry key [] = err null_deref
  find_entry key (entry ∷ []) = if ops.equal key entry.key then ok (some entry) else ok none
  find_entry key (entry ∷ next ∷ rest) =
      let further = find_entry key (next ∷ rest) in
      if ops.equal key entry.key then ok (some entry) else further

  -- `LookupKVResult`: the entry that the two pointers point into, or null.
  unfoldable pub lookup : Map K V → K → Result (Option (Entry K V))
  lookup m key = do
    bucket ← at m.buckets (bucket_index_for_key m key)
    if bucket.n_items == 0 then ok none else find_entry key bucket.first

  -- The inner loop of the resize, over the entries of one bucket.
  unfoldable pub rehash_chain :
      ℕ → List (Entry K V) → List (Bucket K V) → Result (List (Bucket K V))
  rehash_chain new_capacity [] new_buckets = ok new_buckets
  rehash_chain new_capacity (entry ∷ rest) new_buckets = do
    let new_index = index_in new_capacity (ops.hasher entry.key)
    new_bucket ← at new_buckets new_index
    rehash_chain new_capacity rest (set new_buckets new_index (insert_into_bucket new_bucket entry))

  -- The outer loop, over the array of `capacity` buckets.
  unfoldable pub rehash_buckets :
      ℕ → List (Bucket K V) → List (Bucket K V) → Result (List (Bucket K V))
  rehash_buckets new_capacity [] new_buckets = ok new_buckets
  rehash_buckets new_capacity (bucket ∷ rest) new_buckets =
      rehash_chain new_capacity bucket.first new_buckets >>= rehash_buckets new_capacity rest

  unfoldable pub perform_resize_if_required : Map K V → Result (Map K V)
  perform_resize_if_required m =
      let new_capacity = word (2 * m.capacity) in
      let resized = (do
        new_buckets ← rehash_buckets new_capacity m.buckets (replicate new_capacity empty_bucket)
        ok (record m { buckets = new_buckets; capacity = new_capacity })) in
      if resize_required m then resized else ok m

  -- A new chain for one bucket with one more item, and the resize.
  unfoldable pub add_entry : Map K V → ℕ → Bucket K V → List (Entry K V) → Result (Map K V)
  add_entry m index bucket chain = perform_resize_if_required (record m {
    n_items = m.n_items + 1;
    buckets = set m.buckets index (record { first = chain; n_items = bucket.n_items + 1 });
  })

  unfoldable pub insert : Map K V → K → V → Result (InsertResult K V × Map K V)
  insert m key value = do
    let index = bucket_index_for_key m key
    let new_entry : Entry K V = record { key = key; value = value }
    bucket ← at m.buckets index
    if bucket.n_items == 0
        then (do m' ← add_entry m index bucket (new_entry ∷ []); ok (new_result key, m'))
        else (do
          found ← find_entry key bucket.first
          elim found [
            | some entry ↦ ok (entry_result entry.key entry.value false, m)
            | none ↦ do
              m' ← add_entry m index bucket (bucket.first ++ new_entry ∷ [])
              ok (new_result key, m')
          ])

  -- The value assigned at the first entry of the key.
  unfoldable pub assign_value : K → V → List (Entry K V) → List (Entry K V)
  assign_value key value [] = []
  assign_value key value (entry ∷ rest) =
      if ops.equal key entry.key
      then record entry { value = value } ∷ rest
      else entry ∷ assign_value key value rest

  -- The first argument says whether the destructor of ValueT is trivial.
  unfoldable pub update : Bool → Map K V → K → V → Result (InsertResult K V × Map K V)
  update trivial m key value = do
    let index = bucket_index_for_key m key
    let new_entry : Entry K V = record { key = key; value = value }
    bucket ← at m.buckets index
    if bucket.n_items == 0
        then (do m' ← add_entry m index bucket (new_entry ∷ []); ok (new_result key, m'))
        else (do
          found ← find_entry key bucket.first
          elim found [
            | some entry ↦ do
              assigned ← assign_destroyed trivial value
              ok (
                entry_result entry.key assigned true,
                record m {
                  buckets =
                      set m.buckets index
                        (record bucket { first = assign_value key assigned bucket.first });
                },
              )
            | none ↦ do
              m' ← add_entry m index bucket (bucket.first ++ new_entry ∷ [])
              ok (new_result key, m')
          ])

  -- What `bucket.first` heads after an entry is taken out: `prev->next = entry->next`, where
  -- `prev` is given with the entries up to it, or `bucket.first = entry->next`.
  unfoldable pub unlink : Option (List (Entry K V)) → List (Entry K V) → List (Entry K V)
  unlink none next = next
  unlink (some before) next = before ++ next

  -- The loop of `remove`. The variable `prev` is passed on as it is: the loop never sets it.
  unfoldable pub remove_entry :
      K
      → Option (List (Entry K V))
      → List (Entry K V)
      → Result (Option (Entry K V × List (Entry K V)))
  remove_entry key prev [] = err null_deref
  remove_entry key prev (entry ∷ []) =
      if ops.equal key entry.key then ok (some (entry, unlink prev [])) else ok none
  remove_entry key prev (entry ∷ next ∷ rest) =
      let further = remove_entry key prev (next ∷ rest) in
      if ops.equal key entry.key then ok (some (entry, unlink prev (next ∷ rest))) else further

  -- `RemoveKVResult`: the pair moved out of the map, if any.
  unfoldable pub remove : Map K V → K → Result (Option (Entry K V) × Map K V)
  remove m key = do
    let index = bucket_index_for_key m key
    bucket ← at m.buckets index
    if bucket.n_items == 0 then ok (none, m) else (do
      found ← remove_entry key none bucket.first
      elim found [
        | none ↦ ok (none, m)
        | some (entry, chain) ↦ ok (
          some entry,
          record m {
            n_items = decrement m.n_items;
            buckets =
                set m.buckets index (record { first = chain; n_items = decrement bucket.n_items });
          },
        )
      ])

  -- The results in the order of the keys.
  unfoldable pub sequential_multilookup : Map K V → List K → Result (List (Option (Entry K V)))
  sequential_multilookup m [] = ok []
  sequential_multilookup m (key ∷ keys) = do
    result ← lookup m key
    results ← sequential_multilookup m keys
    ok (result ∷ results)
