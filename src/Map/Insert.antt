-- ===== src/Map/Insert.antt =====
-- `insert` of applications/map/map.hpp on valid maps.
use coroutines.Base.{
  ◌+◌, ◌^◌, ◌<◌, ◌≡◌, refl, ap, ◌∙◌, false, Option, none, some, List, [], ◌∷◌, ◌++◌, Returns, set,
  length, length-append, if◌then◌else◌, arith,
}
use coroutines.Map.Core.{Key, Entry, Bucket, Map, count}
use coroutines.Map.Operations.{
  InsertResult, new_result, entry_result, bucket_index_for_key, add_entry, insert,
}
use coroutines.Map.Chain.{occurs_of_none}
use coroutines.Map.Table.{home, entries, Home_of}
use coroutines.Map.Write.{append-Appended}
use coroutines.Map.Valid.{view, IsLoaded, IsValid, resize-Resized}
use coroutines.Map.Lookup.{vacant, missing, found, probe}

module _ {K V : Type 0} ⦃ops : Key K⦄ where
  -- The map with one more key.
  pub record Added (m : Map K V) (key : K) (value : V) (r : Map K V) : Type 0 where
    pub valid : IsValid r
    pub one_more : count r ≡ count m + 1
    pub same_max : r.max_capacity ≡ m.max_capacity
    pub updated : (q : K) → view r q ≡ (if ops.equal q key then some value else view m q)

  pub add_entry-Added :
      (m : Map K V) (v : IsValid m) (key : K) (value : V) (chain : List (Entry K V))
      → m.n_items + 1 < 2 ^ 61
      → view m key ≡ none
      → chain ≡ (Home_of v.table key).bucket.first ++ record { key = key; value = value } ∷ []
      → Returns
          (add_entry m (home m.capacity key) (Home_of v.table key).bucket chain)
          (Added m key value)
  unfolding add_entry count
  add_entry-Added m v key value chain few absent e =
      let h = Home_of v.table key in
      let b : Bucket K V = record { first = chain; n_items = h.bucket.n_items + 1 } in
      let w =
        append-Appended v.table key value b (occurs_of_none key (entries m.buckets) absent)
          (omega (
            arith,
            ap length e,
            h.good.sized,
            length-append h.bucket.first (record { key = key; value = value } ∷ []),
          ))
          e in
      let grown : Map K V = record m {
        n_items = m.n_items + 1;
        buckets = set m.buckets (home m.capacity key) b;
      } in
      let loaded : IsLoaded 2 grown = record {
        table = w.table;
        counted = omega (arith, w.total, v.counted);
        power = v.power;
        fits = v.fits;
        in_word = v.in_word;
        sparse = λ p. omega (arith, v.sparse p);
      } in
      let (r, run, z) = resize-Resized grown loaded few in
      (
        r,
        run,
        record {
          valid = z.valid;
          one_more = z.same_count;
          same_max = z.same_max;
          updated = λ q. z.same_view q ∙ w.finds q;
        },
      )

  -- What `insert` does: a new key is added, and the result refers to the parameters; a key that is
  -- there is left alone, and the result refers to its entry.
  abbrev pub Inserts : Map K V → K → V → Option V → InsertResult K V × Map K V → Type 0
  Inserts m key value none (r, m') = (r ≡ new_result key) × Added m key value m'
  Inserts m key value (some old) (r, m') = (r ≡ entry_result key old false) × (m' ≡ m)

  -- On a valid map with fewer than 2 ^ 61 - 1 items, `insert` runs without a fault. A new key is
  -- added with its value, the map stays valid, `count` grows by one, the maximum capacity stays,
  -- and no other key changes, also when the table is resized; the result says inserted, its key
  -- pointer refers to the key of the caller, and its value pointer to the by-value parameter,
  -- which is gone after the call. A key that is there keeps its value, the map is unchanged, and
  -- the result says not inserted and refers to the entry.
  pub insert-Inserts :
      (m : Map K V) (key : K) (value : V)
      → IsValid m
      → count m + 1 < 2 ^ 61
      → Returns (insert m key value) (Inserts m key value (view m key))
  unfolding insert bucket_index_for_key count
  insert-Inserts m key value v few = elim (probe m v key) [
    | vacant e c q ↦
        let (m', run, a) =
          add_entry-Added m v key value (record { key = key; value = value } ∷ []) few q (rw c) in
        ((new_result key, m'), rw ((Home_of v.table key).there, e, run), rw q (refl, a))
    | missing e p q ↦
        let (m', run, a) = add_entry-Added m v key value _ few q refl in
        ((new_result key, m'), rw ((Home_of v.table key).there, e, p, run), rw q (refl, a))
    | found f e p same q ↦ (
      (entry_result f.key f.value false, m),
      rw ((Home_of v.table key).there, e, p),
      rw q (ap (λ (k : K). entry_result k f.value false) same, refl),
    )
  ]
