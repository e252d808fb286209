-- ===== src/Map/RemoveLaws.antt =====
-- `remove` of applications/map/map.hpp, by the place of the key in its chain.
use coroutines.Base.{
  ◌+◌, ◌^◌, ◌<◌, ◌≡◌, sym, ap, ◌∙◌, ◌≢◌, ◌⊎◌, inl, inr, Option, none, some, List, [], ◌∷◌, ◌++◌, ok,
  Returns, if◌then◌else◌, arith, List-cases,
}
use coroutines.Map.Core.{Key, Entry, Map, count}
use coroutines.Map.Operations.{remove}
use coroutines.Map.Chain.{find_in, occurs, occurs_of_none, occurs_head}
use coroutines.Map.Table.{Home_of}
use coroutines.Map.Valid.{view, IsValid}
use coroutines.Map.Remove.{Split, chain_of, remove_cases}
use coroutines.Map.Removal.{
  length-chain, chain-le_count, occurs-chain, without, after_remove-without, without-IsValid,
  view-without,
}

module _ {K V : Type 0} ⦃ops : Key K⦄ (m : Map K V) (v : IsValid m) (key : K) where
  pub view-chain : view m key ≡ find_in key (chain_of m v key)
  view-chain = (Home_of v.table key).finds

  -- A split shows that the key is there.
  Split-view : Split key (chain_of m v key) → view m key ≢ none
  Split-view s e = omega (
    arith,
    occurs-chain v key s key,
    occurs_of_none key (chain_of m v key) (sym view-chain ∙ e),
    occurs_head key s.entry s.after s.same_key,
  )

  -- On a valid map, `remove` of a key that is not there returns nothing and leaves the map as it
  -- is.
  pub remove_absent : view m key ≡ none → remove m key ≡ ok (none, m)
  remove_absent e = elim (remove_cases m v key) [
    | inl (_, p) ↦ p
    | inr (s, _) ↦ absurd (Split-view s e)
  ]

  -- The first entry of the chain is the one that is found, or stands before it.
  pub Split-head :
      (e : Entry K V) (rest : List (Entry K V)) (s : Split key (chain_of m v key))
      → chain_of m v key ≡ e ∷ rest
      → ((s.before ≡ []) × (s.entry ≡ e) × (s.after ≡ rest))
        ⊎ ((ys : List (Entry K V)) × (s.before ≡ e ∷ ys) × (e.key ≢ key))
  Split-head e rest s chain = elim (List-cases s.before) [
    | inl b ↦
        let q = sym chain ∙ s.parts ∙ ap (λ (x : List (Entry K V)). x ++ s.entry ∷ s.after) b in
        inl (b, cc q, cc q)
    | inr (x, ys, b) ↦
        let q = sym chain ∙ s.parts ∙ ap (λ (x : List (Entry K V)). x ++ s.entry ∷ s.after) b in
        let head : e ≡ x = cc q in
        let b' = b ∙ ap (λ (y : Entry K V). y ∷ ys) (sym head) in
        inr (ys, b', λ same. omega (arith, s.first, ap (occurs key) b', occurs_head key e ys same))
  ]

  -- The effect of a removal as the class promises it.
  pub record Removes (e : Entry K V) (r : Option (Entry K V) × Map K V) : Type 0 where
    pub result : r.0 ≡ some e
    pub valid : IsValid r.1
    pub one_less : count r.1 + 1 ≡ count m
    pub updated : (q : K) → view r.1 q ≡ (if ops.equal q key then none else view m q)

  -- On a valid map with fewer than 2 ^ 61 items, `remove` of a key whose entry is the first of its
  -- chain returns that entry; the map stays valid, the key is gone, no other key changes, and
  -- `count` falls by one.
  pub remove_first :
      (e : Entry K V) (rest : List (Entry K V))
      → count m < 2 ^ 61
      → chain_of m v key ≡ e ∷ rest
      → e.key ≡ key
      → Returns (remove m key) (Removes e)
  unfolding count
  remove_first e rest few chain same = elim (remove_cases m v key) [
    | inl (p, _) ↦ absurd (
        omega (
          arith,
          occurs_of_none key (chain_of m v key) (sym view-chain ∙ p),
          ap (occurs key) chain,
          occurs_head key e rest same,
        ))
    | inr (s, run) ↦ elim (Split-head e rest s chain) [
      | inr (_, _, other) ↦ absurd (other same)
      | inl (b, found, after) ↦ (
        (some s.entry, without v key s),
        run ∙ ap (λ (r : Map K V). ok (some s.entry, r)) (after_remove-without v key s few b),
        record {
          result = ap some found;
          valid = without-IsValid v key s b;
          one_less = omega (arith, chain-le_count v key s, length-chain v key s);
          updated = view-without v key s b;
        },
      )
    ]
  ]
