-- ===== src/Map/Results.antt =====
-- applications/map/map.hpp: the results of the operations and their accessors.
use coroutines.Base.{
  ◌+◌, ◌^◌, ◌<◌, ◌≡◌, refl, ap, ◌∙◌, Bool, true, false, Option, none, some, Result, ok, err,
  null_deref, wild_deref, dead_object, ◌>>=◌, Returns,
}
use coroutines.Map.Core.{Key, Entry, Map, count}
use coroutines.Map.Operations.{
  Referent, to_entry, to_argument, to_parameter, InsertResult, new_result, entry_result, lookup,
  insert, update,
}
use coroutines.Map.Chain.{equal_refl}
use coroutines.Map.Valid.{view, IsValid}
use coroutines.Map.Lookup.{lookup-view}
use coroutines.Map.Insert.{Added, Inserts, insert-Inserts}
use coroutines.Map.Update.{Updates, update-Updates}

module _ {K V : Type 0} where
  -- `LookupKVResult`: its pointers are those of an entry, or both null.
  abbrev pub get_key : Option (Entry K V) → Result K
  get_key none = err null_deref
  get_key (some entry) = ok entry.key

  abbrev pub get_value : Option (Entry K V) → Result V
  get_value none = err null_deref
  get_value (some entry) = ok entry.value

  abbrev pub is_found : Option (Entry K V) → Bool
  is_found none = false
  is_found (some entry) = true

-- `RemoveKVResult`
pub record RemoveResult (K V : Type 0) : Type 0 where
  pub key : Option K
  pub value : Option V

module _ {K V : Type 0} where
  abbrev pub removed : Option (Entry K V) → RemoveResult K V
  removed none = record { key = none; value = none }
  removed (some entry) = record { key = some entry.key; value = some entry.value }

  -- `*key` and `*value`: undefined where the optional is empty.
  abbrev pub take_key : RemoveResult K V → Result K
  take_key r = elim r.key [ some k ↦ ok k | none ↦ err wild_deref ]

  abbrev pub take_value : RemoveResult K V → Result V
  take_value r = elim r.value [ some v ↦ ok v | none ↦ err wild_deref ]

  abbrev pub is_removed : RemoveResult K V → Bool
  is_removed r = elim r.key [ some k ↦ true | none ↦ false ]

-- `*key` and `*value` of an `InsertKVResult` after the call: the key of the caller is taken to be there.
abbrev pub referred : {A : Type 0} → Referent A → Result A
referred (to_entry a) = ok a
referred (to_argument a) = ok a
referred to_parameter = err dead_object

-- What a write says and its result's `get_value`, and what a lookup after it finds.
pub record ReadBack (V : Type 0) : Type 0 where
  pub inserted : Bool
  pub result_value : Result V
  pub found : Bool
  pub found_value : V

module _ {V : Type 0} where
  abbrev pub of_new_key : V → Result (ReadBack V)
  of_new_key value = ok (record {
    inserted = true;
    result_value = err dead_object;
    found = true;
    found_value = value;
  })

  abbrev pub of_entry : Bool → V → Result (ReadBack V)
  of_entry inserted value =
      ok
        (record { inserted = inserted; result_value = ok value; found = true; found_value = value })

  -- By the value that the key had.
  abbrev pub insert_reads : V → Option V → Result (ReadBack V)
  insert_reads value none = of_new_key value
  insert_reads value (some old) = of_entry false old

  abbrev pub update_reads : Bool → V → Option V → Result (ReadBack V)
  update_reads trivial value none = of_new_key value
  update_reads true value (some old) = of_entry true value
  update_reads false value (some old) = err dead_object

module _ {K V : Type 0} ⦃ops : Key K⦄ where
  -- What a caller reads after a write.
  abbrev pub read_back : Result (InsertResult K V × Map K V) → K → Result (ReadBack V)
  read_back run key = do
    (r, m) ← run
    found ← lookup m key
    x ← get_value found
    ok (record {
      inserted = r.inserted;
      result_value = referred r.value;
      found = is_found found;
      found_value = x;
    })

  read_back-runs :
      (run : Result (InsertResult K V × Map K V)) (key : K) (r : InsertResult K V) (m : Map K V)
      (x : V)
      → run ≡ ok (r, m)
      → IsValid m
      → view m key ≡ some x
      → read_back run key
        ≡ ok (record {
          inserted = r.inserted;
          result_value = referred r.value;
          found = true;
          found_value = x;
        })
  read_back-runs run key r m x e v seen = rw (e, lookup-view m v key, seen) refl

  -- A key that was added.
  read_back-new_key :
      (m : Map K V) (run : Result (InsertResult K V × Map K V)) (key : K) (value : V)
      → Returns run (λ r. (r.0 ≡ new_result key) × Added m key value r.1)
      → read_back run key ≡ of_new_key value
  read_back-new_key m run key value ((r, m'), e, (same, added)) =
      read_back-runs run key r m' value e added.valid (added.updated key ∙ rw (equal_refl key) refl)
      ∙ ap
          (λ (s : InsertResult K V). ok (record {
            inserted = s.inserted;
            result_value = referred s.value;
            found = true;
            found_value = value;
          }))
          same

  insert-reads :
      (m : Map K V) (key : K) (value : V) (o : Option V)
      → IsValid m
      → view m key ≡ o
      → Returns (insert m key value) (Inserts m key value o)
      → read_back (insert m key value) key ≡ insert_reads value o
  insert-reads m key value none v seen ((r, m'), run, i) =
      read_back-new_key m (insert m key value) key value ((r, m'), run, i)
  insert-reads m key value (some old) v seen ((r, m'), run, (same, kept)) =
      let e : insert m key value ≡ ok (entry_result key old false, m) =
        run ∙ rw (same, kept) refl in
      read_back-runs (insert m key value) key (entry_result key old false) m old e v seen

  update-reads :
      (trivial : Bool) (m : Map K V) (key : K) (value : V) (o : Option V)
      → Updates trivial m key value o (update trivial m key value)
      → read_back (update trivial m key value) key ≡ update_reads trivial value o
  update-reads trivial m key value none u =
      read_back-new_key m (update trivial m key value) key value u
  update-reads true m key value (some old) ((r, m'), run, (same, assigned)) =
      let e : update true m key value ≡ ok (entry_result key value true, m') =
        run ∙ rw (same) refl in
      read_back-runs (update true m key value) key (entry_result key value true) m' value e
        assigned.valid (assigned.updated key ∙ rw (equal_refl key) refl)
  update-reads false m key value (some old) u = rw u refl

  -- On a valid map with fewer than 2 ^ 61 - 1 items, a lookup of a key right after an `insert` or
  -- `update` that runs without a fault finds it. For a new key, both say inserted, the lookup
  -- gives the written value, and `get_value` of their own result reads an object that is gone. For
  -- a key that is there, `insert` says not inserted, and its result and the lookup give the old
  -- value; `update` says inserted and both give the written value if the destructor of the value
  -- type is trivial, and faults otherwise.
  pub written-reads :
      (trivial : Bool) (m : Map K V) (key : K) (value : V)
      → IsValid m
      → count m + 1 < 2 ^ 61
      → (read_back (insert m key value) key ≡ insert_reads value (view m key))
        × (read_back (update trivial m key value) key ≡ update_reads trivial value (view m key))
  written-reads trivial m key value v few = (
    insert-reads m key value (view m key) v refl (insert-Inserts m key value v few),
    update-reads trivial m key value (view m key) (update-Updates trivial m key value v few),
  )
