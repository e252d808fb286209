-- ===== src/Map/RemoveCases.antt =====
-- `remove` of applications/map/map.hpp on each of its branches.
use coroutines.Base.{
  ◌^◌, ◌<◌, ◌≡◌, refl, ap, ◌∙◌, ◌≢◌, inl, inr, Option, none, List, ◌∷◌, Returns, Bool-cases,
  List-cases, Option-cases, arith,
}
use coroutines.Map.Core.{Key, Entry, Map, count}
use coroutines.Map.Operations.{remove}
use coroutines.Map.Chain.{find_in}
use coroutines.Map.Valid.{view, IsValid}
use coroutines.Map.Remove.{chain_of}
use coroutines.Map.RemoveLaws.{view-chain, Removes, remove_first, remove_absent}
use coroutines.Map.RemoveLost.{Loses, remove_inner}

module _ {K V : Type 0} ⦃ops : Key K⦄ (m : Map K V) (v : IsValid m) (key : K) where
  -- What a removal does: the key is not there, its entry is the first of its chain, or stands
  -- behind another one.
  pub data Removal (r : Option (Entry K V) × Map K V) : Type 0 where
    absent : view m key ≡ none → r ≡ (none, m) → Removal r
    first :
        (e : Entry K V) (rest : List (Entry K V))
        → chain_of m v key ≡ e ∷ rest
        → e.key ≡ key
        → Removes m v key e r
        → Removal r
    behind :
        (p : Entry K V) (rest : List (Entry K V))
        → chain_of m v key ≡ p ∷ rest
        → p.key ≢ key
        → Loses m v key p r
        → Removal r

  head-Removal :
      (e : Entry K V) (rest : List (Entry K V))
      → count m < 2 ^ 61
      → chain_of m v key ≡ e ∷ rest
      → view m key ≢ none
      → Returns (remove m key) Removal
  head-Removal e rest few chain there = elim (Bool-cases (ops.equal e.key key)) [
    | inl same ↦
        let k : e.key ≡ key = ground (arith, ops.equal_iff e.key key, same) in
        let (r, run, removes) = remove_first m v key e rest few chain k in
        (r, run, first e rest chain k removes)
    | inr other ↦
        let k : e.key ≢ key = λ p. ground (arith, ops.equal_iff e.key key, other, p) in
        let (r, run, loses) = remove_inner m v key e rest few chain k there in
        (r, run, behind e rest chain k loses)
  ]

  -- On a valid map with fewer than 2 ^ 61 items `remove` runs without a fault, and either the key
  -- has no value, nothing is returned and the map is as before; or its entry is the first of its
  -- chain, is returned, the map stays valid, the key is gone, no other key changes and `count`
  -- falls by one; or its chain begins with another key's entry, which is lost too: that key had a
  -- value and has none, `count` falls by one while two entries or more are gone, and the map is no
  -- longer valid.
  pub remove-Removal : count m < 2 ^ 61 → Returns (remove m key) Removal
  unfolding find_in
  remove-Removal few = elim (Option-cases (view m key)) [
    | inl gone ↦ ((none, m), remove_absent m v key gone, absent gone refl)
    | inr (x, there) ↦
        let found : view m key ≢ none = λ gone. cc (gone, there) in
        elim (List-cases (chain_of m v key)) [
          | inl nothing ↦ absurd (found (view-chain m v key ∙ ap (find_in key) nothing))
          | inr (e, rest, chain) ↦ head-Removal e rest few chain found
        ]
  ]
