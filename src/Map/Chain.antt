-- ===== src/Map/Chain.antt =====
-- One chain of applications/map/map.hpp against what it means: the value of a key, and how often
-- the key stands in it.
use coroutines.Base.{
  ℕ, ◌+◌, ◌≡◌, refl, sym, ◌⊎◌, inl, inr, true, Option, none, some, List, [], ◌∷◌, ◌++◌, ok, length,
  if◌then◌else◌, arith, Bool-cases,
}
use coroutines.Map.Core.{Key, Entry}
use coroutines.Map.Operations.{find_entry, assign_value}

abbrev pub or_else : {A : Type 0} → Option A → Option A → Option A
or_else none b = b
or_else (some a) b = some a

pub equal_refl : {K : Type 0} ⦃ops : Key K⦄ (k : K) → ops.equal k k ≡ true
equal_refl ⦃ops⦄ k = (ops.equal_iff k k).1 refl

module _ {K V : Type 0} ⦃ops : Key K⦄ where
  unfoldable pub find_in : K → List (Entry K V) → Option V
  find_in key [] = none
  find_in key (entry ∷ rest) =
      if ops.equal key entry.key then some entry.value else find_in key rest

  unfoldable pub occurs : K → List (Entry K V) → ℕ
  occurs key [] = 0
  occurs key (entry ∷ rest) = (if ops.equal key entry.key then 1 else 0) + occurs key rest

  pub find_in_absent : (k : K) (c : List (Entry K V)) → occurs k c ≡ 0 → find_in k c ≡ none
  unfolding find_in occurs
  find_in_absent k [] h = refl
  find_in_absent k (e ∷ c) h = ground (arith, find_in_absent k c)

  pub occurs_of_none : (k : K) (c : List (Entry K V)) → find_in k c ≡ none → occurs k c ≡ 0
  unfolding find_in occurs
  occurs_of_none k [] h = refl
  occurs_of_none k (e ∷ c) h = ground (arith, occurs_of_none k c)

  pub find_in-append :
      (k : K) (a b : List (Entry K V)) → find_in k (a ++ b) ≡ or_else (find_in k a) (find_in k b)
  unfolding find_in
  find_in-append k [] b = refl
  find_in-append k (e ∷ a) b = ground (arith, find_in-append k a b)

  pub occurs-append : (k : K) (a b : List (Entry K V)) → occurs k (a ++ b) ≡ occurs k a + occurs k b
  unfolding occurs
  occurs-append k [] b = omega arith
  occurs-append k (e ∷ a) b = omega (arith, occurs-append k a b)

  pub occurs_head :
      (k : K) (e : Entry K V) (c : List (Entry K V)) → e.key ≡ k → occurs k (e ∷ c) ≡ 1 + occurs k c
  unfolding occurs
  occurs_head k e c same = rw ((ops.equal_iff k e.key).1 (sym same))

  -- The outcome of the loop over a chain that is not empty.
  abbrev pub Found : K → List (Entry K V) → Type 0
  Found k c =
      (e : Entry K V) × (find_entry k c ≡ ok (some e)) × (e.key ≡ k) × (find_in k c ≡ some e.value)

  abbrev pub Missing : K → List (Entry K V) → Type 0
  Missing k c = (find_entry k c ≡ ok none) × (find_in k c ≡ none)

  pub find_entry_lem :
      (k : K) (e : Entry K V) (c : List (Entry K V)) → Missing k (e ∷ c) ⊎ Found k (e ∷ c)
  unfolding find_entry find_in
  find_entry_lem k e [] = elim (Bool-cases (ops.equal k e.key)) [
    | inl h ↦ inr (e, rw h, sym ((ops.equal_iff k e.key).0 h), rw h)
    | inr h ↦ inl (rw h, rw h)
  ]
  find_entry_lem k e (e' ∷ c) = elim (Bool-cases (ops.equal k e.key)) [
    | inl h ↦ inr (e, rw h, sym ((ops.equal_iff k e.key).0 h), rw h)
    | inr h ↦ elim (find_entry_lem k e' c) [
      | inl (p, q) ↦ inl (rw h p, rw h q)
      | inr (f, p, q, r) ↦ inr (f, rw h p, q, rw h r)
    ]
  ]

  pub length-assign_value :
      (k : K) (v : V) (c : List (Entry K V)) → length (assign_value k v c) ≡ length c
  unfolding assign_value
  length-assign_value k v [] = refl
  length-assign_value k v (e ∷ c) = ground (arith, length-assign_value k v c)

  pub occurs-assign_value :
      (k q : K) (v : V) (c : List (Entry K V)) → occurs q (assign_value k v c) ≡ occurs q c
  unfolding assign_value occurs
  occurs-assign_value k q v [] = refl
  occurs-assign_value k q v (e ∷ c) = ground (arith, occurs-assign_value k q v c)

  pub find_in-assign_value :
      (k q : K) (v old : V) (c : List (Entry K V))
      → find_in k c ≡ some old
      → find_in q (assign_value k v c) ≡ (if ops.equal q k then some v else find_in q c)
  unfolding assign_value find_in
  find_in-assign_value k q v old [] h = cc
  find_in-assign_value k q v old (e ∷ c) h = ground (
    arith,
    find_in-assign_value k q v old c,
    ops.equal_iff k e.key,
    ops.equal_iff q e.key,
    ops.equal_iff q k,
  )
