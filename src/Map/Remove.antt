-- ===== src/Map/Remove.antt =====
-- `remove` of applications/map/map.hpp on valid maps, by the chain of the key.
use coroutines.Base.{
  ℕ, ◌≡◌, refl, sym, ap, ◌∙◌, ◌⊎◌, inl, inr, true, false, Option, none, some, List, [], ◌∷◌, ◌++◌,
  ok, at, set, length, ◌==◌, arith, Bool-cases,
}
use coroutines.Map.Core.{Key, Entry, Map, decrement}
use coroutines.Map.Operations.{bucket_index_for_key, unlink, remove_entry, remove}
use coroutines.Map.Chain.{find_in, occurs}
use coroutines.Map.Table.{home, Home_of}
use coroutines.Map.Valid.{view, IsValid}

module _ {K V : Type 0} ⦃ops : Key K⦄ where
  -- The first entry of the key in a chain, with the entries before and after it.
  pub record Split (key : K) (chain : List (Entry K V)) : Type 0 where
    pub before : List (Entry K V)
    pub entry : Entry K V
    pub after : List (Entry K V)
    pub parts : chain ≡ before ++ entry ∷ after
    pub same_key : entry.key ≡ key
    pub first : occurs key before ≡ 0

  remove_entry_lem :
      (key : K) (prev : Option (List (Entry K V))) (e : Entry K V) (c : List (Entry K V))
      → ((remove_entry key prev (e ∷ c) ≡ ok none) × (find_in key (e ∷ c) ≡ none))
        ⊎ ((s : Split key (e ∷ c)) × (remove_entry key prev (e ∷ c)
              ≡ ok (some (s.entry, unlink prev s.after))))
  unfolding remove_entry find_in occurs
  remove_entry_lem key prev e [] = elim (Bool-cases (ops.equal key e.key)) [
    | inr h ↦ inl (rw h, rw h)
    | inl h ↦ inr (at_head h, rw h)
  ]
    where
      at_head : ops.equal key e.key ≡ true → Split key (e ∷ [])
      at_head h = record {
        before = [];
        entry = e;
        after = [];
        parts = refl;
        same_key = sym ((ops.equal_iff key e.key).0 h);
        first = refl;
      }
  remove_entry_lem key prev e (e' ∷ c) = elim (Bool-cases (ops.equal key e.key)) [
    | inl h ↦ inr (at_head h, rw h)
    | inr h ↦ elim (remove_entry_lem key prev e' c) [
      | inl (p, q) ↦ inl (rw h p, rw h q)
      | inr (s, p) ↦ inr (further h s, rw h p)
    ]
  ]
    where
      at_head : ops.equal key e.key ≡ true → Split key (e ∷ e' ∷ c)
      at_head h = record {
        before = [];
        entry = e;
        after = e' ∷ c;
        parts = refl;
        same_key = sym ((ops.equal_iff key e.key).0 h);
        first = refl;
      }

      further : ops.equal key e.key ≡ false → Split key (e' ∷ c) → Split key (e ∷ e' ∷ c)
      further h s = record {
        before = e ∷ s.before;
        entry = s.entry;
        after = s.after;
        parts = ap (λ (x : List (Entry K V)). e ∷ x) s.parts;
        same_key = s.same_key;
        first = rw h (omega (arith, s.first));
      }

  -- The map that `remove` leaves when it takes out the entry of a split.
  abbrev pub removed : (m : Map K V) → ℕ → ℕ → List (Entry K V) → Map K V
  removed m index n chain = record m {
    n_items = decrement m.n_items;
    buckets = set m.buckets index (record { first = chain; n_items = decrement n });
  }

  -- The chain of a key, in the bucket where the key belongs.
  abbrev pub chain_of : (m : Map K V) → IsValid m → K → List (Entry K V)
  chain_of m v key = (Home_of v.table key).bucket.first

  remove_chain :
      (m : Map K V) (key : K) (n : ℕ) (c : List (Entry K V))
      → at m.buckets (home m.capacity key) ≡ ok (record { first = c; n_items = n })
      → n ≡ length c
      → ((remove m key ≡ ok (none, m)) × (find_in key c ≡ none))
        ⊎ ((s : Split key c) × (remove m key
              ≡ ok (some s.entry, removed m (home m.capacity key) n s.after)))
  unfolding remove find_in bucket_index_for_key unlink
  remove_chain m key n [] there sized = inl (rw there (ground arith), refl)
  remove_chain m key n (e ∷ c) there sized =
      let filled : (n == 0) ≡ false = ground arith in
      elim (remove_entry_lem key none e c) [
        | inl (p, q) ↦ inl (rw (there, filled, p), q)
        | inr (s, p) ↦ inr (s, rw (there, filled, p))
      ]

  -- `remove` does not fault on a valid map. An absent key changes nothing; of a key that is there
  -- the entry is returned, and the chain becomes what follows that entry.
  pub remove_cases :
      (m : Map K V) (v : IsValid m) (key : K)
      → ((view m key ≡ none) × (remove m key ≡ ok (none, m)))
        ⊎ ((s : Split key (chain_of m v key)) × (remove m key
              ≡ ok (
                some s.entry,
                removed m (home m.capacity key) (length (chain_of m v key)) s.after,
              )))
  remove_cases m v key =
      let h = Home_of v.table key in
      elim (remove_chain m key h.bucket.n_items h.bucket.first h.there h.good.sized) [
        | inl (p, q) ↦ inl (h.finds ∙ q, p)
        | inr (s, p) ↦ inr (s, rw (← h.good.sized) p)
      ]
