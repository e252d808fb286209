-- ===== src/Map/Update.antt =====
-- `update` of applications/map/map.hpp on valid maps.
use coroutines.Base.{
  ◌+◌, ◌^◌, ◌<◌, ◌≡◌, refl, sym, ap, ◌∙◌, Bool, true, false, Option, none, some, [], ◌∷◌, Returns,
  Result, err, dead_object, Bool-cases, inl, inr, set, if◌then◌else◌, arith,
}
use coroutines.Map.Core.{Key, Bucket, Map, count}
use coroutines.Map.Operations.{
  InsertResult, new_result, entry_result, assign_destroyed, bucket_index_for_key, update,
  assign_value,
}
use coroutines.Map.Chain.{length-assign_value, occurs-assign_value, find_in-assign_value}
use coroutines.Map.Table.{home, IsHome, Home, Home_of}
use coroutines.Map.Write.{set-Written, shared_finds, home_of_equal}
use coroutines.Map.Valid.{view, IsValid}
use coroutines.Map.Lookup.{vacant, missing, found, probe}
use coroutines.Map.Insert.{Added, add_entry-Added}

module _ {K V : Type 0} ⦃ops : Key K⦄ where
  -- The bucket of the key with its value assigned.
  assigned_bucket : (m : Map K V) → IsValid m → K → V → Bucket K V
  assigned_bucket m v key value = record bucket { first = assign_value key value bucket.first }
    where
      bucket : Bucket K V
      bucket = (Home_of v.table key).bucket

  assigned : (m : Map K V) → IsValid m → K → V → Map K V
  assigned m v key value = record m {
    buckets = set m.buckets (home m.capacity key) (assigned_bucket m v key value);
  }

  assigned_bucket-IsHome :
      (m : Map K V) (v : IsValid m) (key : K) (value : V)
      → IsHome m.capacity (home m.capacity key) (assigned_bucket m v key value)
  unfolding assigned_bucket
  assigned_bucket-IsHome m v key value = record {
    sized = h.good.sized ∙ sym (length-assign_value key value h.bucket.first);
    once = λ q. rw (occurs-assign_value key q value h.bucket.first) (h.good.once q);
  }
    where
      h : Home m.capacity (home m.capacity key) key m.buckets
      h = Home_of v.table key

  -- Assignment changes the view at the key alone.
  pub record Assigned (m : Map K V) (key : K) (value : V) (r : Map K V) : Type 0 where
    pub valid : IsValid r
    pub same_count : count r ≡ count m
    pub updated : (q : K) → view r q ≡ (if ops.equal q key then some value else view m q)

  assigned-Assigned :
      (m : Map K V) (v : IsValid m) (key : K) (value old : V)
      → view m key ≡ some old
      → Assigned m key value (assigned m v key value)
  unfolding assigned assigned_bucket count
  assigned-Assigned m v key value old present =
      let h = Home_of v.table key in
      let b = assigned_bucket m v key value in
      let w = set-Written v.table key b (assigned_bucket-IsHome m v key value) in
      record {
        valid = record {
          table = w.table;
          counted = omega (arith, v.counted, w.total, length-assign_value key value h.bucket.first);
          power = v.power;
          fits = v.fits;
          in_word = v.in_word;
          sparse = v.sparse;
        };
        same_count = refl;
        updated = λ q. ground (
          arith,
          w.finds q,
          find_in-assign_value key q value old h.bucket.first (sym h.finds ∙ present),
          shared_finds v.table key q,
          home_of_equal m.capacity q key,
        );
      }

  -- What `update` does, by the value that the key had: a new key is added, and the result refers to
  -- the parameters; a key that is there gets the value, and the result refers to its entry and says
  -- inserted, but only where the destructor of the value is trivial.
  abbrev pub Updates :
      Bool → Map K V → K → V → Option V → Result (InsertResult K V × Map K V) → Type 0
  Updates trivial m key value none run =
      Returns run λ r. (r.0 ≡ new_result key) × Added m key value r.1
  Updates true m key value (some old) run =
      Returns run λ r. (r.0 ≡ entry_result key value true) × Assigned m key value r.1
  Updates false m key value (some old) run = run ≡ err dead_object

  -- On a valid map with fewer than 2 ^ 61 - 1 items, `update` of a new key does the same as
  -- `insert`: it adds the key with its value, the map stays valid, `count` grows by one and no
  -- other key changes, and the value pointer of the result refers to the by-value parameter, which
  -- is gone. Of a key that is there, if the destructor of the value type is trivial, it runs
  -- without a fault, the map stays valid with the same `count`, the key gets the value and no
  -- other key changes, and the result says inserted and refers to the entry; otherwise it assigns
  -- to an object after its destructor was called.
  pub update-Updates :
      (trivial : Bool) (m : Map K V) (key : K) (value : V)
      → IsValid m
      → count m + 1 < 2 ^ 61
      → Updates trivial m key value (view m key) (update trivial m key value)
  unfolding update bucket_index_for_key count assigned assigned_bucket assign_destroyed
  update-Updates trivial m key value v few = elim (probe m v key) [
    | vacant e c q ↦
        let (m', run, a) =
          add_entry-Added m v key value (record { key = key; value = value } ∷ []) few q (rw c) in
        rw q ((new_result key, m'), rw ((Home_of v.table key).there, e, run), (refl, a))
    | missing e p q ↦
        let (m', run, a) = add_entry-Added m v key value _ few q refl in
        rw q ((new_result key, m'), rw ((Home_of v.table key).there, e, p, run), (refl, a))
    | found f e p same q ↦ elim (Bool-cases trivial) [
      | inl simple ↦
          rw (q, simple)
            (
              (entry_result f.key value true, assigned m v key value),
              rw ((Home_of v.table key).there, e, p, simple, assign_destroyed),
              (
                ap (λ (k : K). entry_result k value true) same,
                assigned-Assigned m v key value f.value q,
              ),
            )
      | inr destroyed ↦
          rw (q, destroyed) (rw ((Home_of v.table key).there, e, p, destroyed, assign_destroyed))
    ]
  ]
