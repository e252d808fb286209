-- ===== src/Map/Lookup.antt =====
-- The lookups of applications/map/map.hpp on valid maps, against the abstract map.
use coroutines.Base.{
  ℕ, ◌≡◌, refl, ap, ◌∙◌, inl, inr, true, false, Option, none, some, List, [], ◌∷◌, ok, length, ◌==◌,
  arith, map,
}
use coroutines.Map.Core.{Key, Entry, Bucket, Map}
use coroutines.Map.Operations.{bucket_index_for_key, find_entry, lookup, sequential_multilookup}
use coroutines.Map.Chain.{find_in, find_entry_lem}
use coroutines.Map.Table.{Home_of}
use coroutines.Map.Valid.{view, IsValid}

module _ {K V : Type 0} ⦃ops : Key K⦄ where
  -- What the two tests of a method say of the bucket of the key: it is empty or misses the key,
  -- or an entry of the key is there.
  pub data Probe (m : Map K V) (key : K) (bucket : Bucket K V) : Type 0 where
    vacant :
        (bucket.n_items == 0) ≡ true → bucket.first ≡ [] → view m key ≡ none → Probe m key bucket
    missing :
        (bucket.n_items == 0) ≡ false
        → find_entry key bucket.first ≡ ok none
        → view m key ≡ none
        → Probe m key bucket
    found :
        (e : Entry K V)
        → (bucket.n_items == 0) ≡ false
        → find_entry key bucket.first ≡ ok (some e)
        → e.key ≡ key
        → view m key ≡ some e.value
        → Probe m key bucket

  Probe-chain :
      (m : Map K V) (key : K) (n : ℕ) (c : List (Entry K V))
      → n ≡ length c
      → view m key ≡ find_in key c
      → Probe m key (record { first = c; n_items = n })
  unfolding find_in
  Probe-chain m key n [] sized reads = vacant (ground arith) refl reads
  Probe-chain m key n (e ∷ c) sized reads = elim (find_entry_lem key e c) [
    | inl (p, q) ↦ missing (ground arith) p (reads ∙ q)
    | inr (f, p, same, q) ↦ found f (ground arith) p same (reads ∙ q)
  ]

  pub probe : (m : Map K V) (v : IsValid m) (key : K) → Probe m key (Home_of v.table key).bucket
  probe m v key =
      let h = Home_of v.table key in
      Probe-chain m key h.bucket.n_items h.bucket.first h.good.sized h.finds

  -- The entry that a lookup points to.
  abbrev pub entry_of : K → Option V → Option (Entry K V)
  entry_of key none = none
  entry_of key (some value) = some (record { key = key; value = value })

  -- On a valid map `lookup` runs without a fault and returns the key with its value in the
  -- abstract map, or nothing if it has none.
  pub lookup-view :
      (m : Map K V) → IsValid m → (key : K) → lookup m key ≡ ok (entry_of key (view m key))
  unfolding lookup bucket_index_for_key
  lookup-view m v key = elim (probe m v key) [
    | vacant e _ q ↦ rw ((Home_of v.table key).there, e, q)
    | missing e p q ↦ rw ((Home_of v.table key).there, e, q) p
    | found f e p same q ↦
        rw ((Home_of v.table key).there, e, q) (p ∙ ap (λ (k : K). ok (some (pair k f.value))) same)
  ]
    where
      pair : K → V → Entry K V
      pair k x = record { key = k; value = x }

  -- On a valid map `sequential_multilookup` runs without a fault and returns, in the order of the
  -- keys, each key with its value in the abstract map, or nothing.
  pub sequential_multilookup-view :
      (m : Map K V)
      → IsValid m
      → (keys : List K) → sequential_multilookup m keys ≡ ok (map (λ k. entry_of k (view m k)) keys)
  unfolding sequential_multilookup
  sequential_multilookup-view m v [] = refl
  sequential_multilookup-view m v (k ∷ keys) =
      rw (lookup-view m v k, sequential_multilookup-view m v keys)
