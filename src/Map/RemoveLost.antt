-- ===== src/Map/RemoveLost.antt =====
-- `remove` of applications/map/map.hpp where the key stands behind another one in its chain.
use coroutines.Base.{
  ◌+◌, ◌^◌, ◌≤◌, ◌<◌, ◌≡◌, refl, sym, ap, ◌∙◌, ◌≢◌, inl, inr, Option, none, some, List, [], ◌∷◌,
  ◌++◌, err, null_deref, Returns, at-set_self, length, arith,
}
use coroutines.Map.Core.{Key, Entry, Map, count, decrement}
use coroutines.Map.Operations.{bucket_index_for_key, find_entry, lookup, remove}
use coroutines.Map.Chain.{find_in, occurs, find_in_absent, equal_refl, occurs_head}
use coroutines.Map.Table.{home, entries, Home_of, home-lt}
use coroutines.Map.Write.{shared_finds}
use coroutines.Map.Valid.{view, IsValid}
use coroutines.Map.Remove.{Split, chain_of, remove_cases}
use coroutines.Map.Removal.{
  length-chain, chain-le_count, occurs-chain, after_remove, view-removed, total-removed,
}
use coroutines.Map.RemoveLaws.{view-chain, Split-head}

module _ {K V : Type 0} ⦃ops : Key K⦄ (m : Map K V) (v : IsValid m) (key : K) where
  -- The removal of a key behind another one, with what it loses.
  pub record Loses (p : Entry K V) (r : Option (Entry K V) × Map K V) : Type 0 where
    pub was_there : view m p.key ≡ some p.value
    pub lost : view r.1 p.key ≡ none
    pub one_less : count r.1 + 1 ≡ count m
    pub two_less : length (entries r.1.buckets) + 2 ≤ length (entries m.buckets)
    pub broken : ¬ IsValid r.1

  -- The first entry of the chain belongs in the bucket, and is the only one of its key.
  first_home :
      (p : Entry K V) (rest : List (Entry K V))
      → chain_of m v key ≡ p ∷ rest
      → (home m.capacity p.key ≡ home m.capacity key) × (occurs p.key (chain_of m v key) ≡ 1)
  first_home p rest chain = ground (
    arith,
    (Home_of v.table key).good.once p.key,
    ap (occurs p.key) chain,
    occurs_head p.key p rest refl,
  )

  first_view :
      (p : Entry K V) (rest : List (Entry K V))
      → chain_of m v key ≡ p ∷ rest
      → view m p.key ≡ some p.value
  unfolding find_in
  first_view p rest chain =
      shared_finds v.table key p.key (first_home p rest chain).0
      ∙ ap (find_in p.key) chain
      ∙ rw (equal_refl p.key) refl

  first_lost :
      (p : Entry K V) (rest ys : List (Entry K V)) (s : Split key (chain_of m v key))
      → chain_of m v key ≡ p ∷ rest
      → s.before ≡ p ∷ ys
      → view (after_remove v key s) p.key ≡ none
  unfolding occurs
  first_lost p rest ys s chain b =
      let (same, one) = first_home p rest chain in
      let gone : occurs p.key s.after ≡ 0 = omega (
        arith,
        one,
        occurs-chain v key s p.key,
        ap (occurs p.key) b,
        occurs_head p.key p ys refl,
      ) in
      ground (arith, view-removed v key s p.key, same, find_in_absent p.key s.after gone)

  -- On a valid map with fewer than 2 ^ 61 items, where the chain of the removed key begins with
  -- another key's entry, `remove` drops that entry too: its key had a value and has none, `count`
  -- falls by one while two entries or more are gone, and the map is no longer valid.
  pub remove_inner :
      (p : Entry K V) (rest : List (Entry K V))
      → count m < 2 ^ 61
      → chain_of m v key ≡ p ∷ rest
      → p.key ≢ key
      → view m key ≢ none
      → Returns (remove m key) (Loses p)
  unfolding count
  remove_inner p rest few chain other there = elim (remove_cases m v key) [
    | inl (e, _) ↦ absurd (there e)
    | inr (s, run) ↦ elim (Split-head m v key p rest s chain) [
      | inl (_, same, _) ↦ absurd (other (sym (ap (λ (e : Entry K V). e.key) same) ∙ s.same_key))
      | inr (ys, b, _) ↦ (
        (some s.entry, after_remove v key s),
        run,
        record {
          was_there = first_view p rest chain;
          lost = first_lost p rest ys s chain b;
          one_less = omega (arith, few, chain-le_count v key s, length-chain v key s);
          two_less = omega (arith, total-removed v key s, ap length b);
          broken = λ w. omega (
            arith,
            w.counted,
            v.counted,
            total-removed v key s,
            ap length b,
            few,
            chain-le_count v key s,
            length-chain v key s,
          );
        },
      )
    ]
  ]

  -- In a chain of two, the second is found with nothing after it.
  Split-second :
      (p e : Entry K V) (ys : List (Entry K V)) (s : Split key (chain_of m v key))
      → chain_of m v key ≡ p ∷ e ∷ []
      → s.before ≡ p ∷ ys
      → s.after ≡ []
  Split-second p e [] s chain b =
      cc (sym chain ∙ s.parts ∙ ap (λ (x : List (Entry K V)). x ++ s.entry ∷ s.after) b)
  Split-second p e (y ∷ []) s chain b =
      cc (sym chain ∙ s.parts ∙ ap (λ (x : List (Entry K V)). x ++ s.entry ∷ s.after) b)
  Split-second p e (y ∷ z ∷ ys) s chain b =
      cc (sym chain ∙ s.parts ∙ ap (λ (x : List (Entry K V)). x ++ s.entry ∷ s.after) b)

  emptied_lookup :
      (s : Split key (chain_of m v key)) (q : K)
      → length (chain_of m v key) ≡ 2
      → s.after ≡ []
      → home m.capacity q ≡ home m.capacity key
      → lookup (after_remove v key s) q ≡ err null_deref
  unfolding lookup find_entry bucket_index_for_key
  emptied_lookup s q two nothing same =
      let there =
        at-set_self m.buckets (home m.capacity key)
          (record { first = s.after; n_items = decrement (length (chain_of m v key)) })
          (home-lt v.table key) in
      rw (same, there, two, nothing)

  -- After `remove` of the second of two keys in one chain of a valid map, every lookup of a key of
  -- that bucket reads through a null pointer.
  pub lookup-remove_second :
      (p e : Entry K V)
      → chain_of m v key ≡ p ∷ e ∷ []
      → e.key ≡ key
      → p.key ≢ key
      → Returns
          (remove m key)
          λ r. (q : K) → home m.capacity q ≡ home m.capacity key → lookup r.1 q ≡ err null_deref
  unfolding find_in
  lookup-remove_second p e chain same other = elim (remove_cases m v key) [
    | inl (gone, _) ↦
        absurd (ground (arith, ops.equal_iff key e.key, ap (find_in key) chain, view-chain m v key))
    | inr (s, run) ↦ elim (Split-head m v key p (e ∷ []) s chain) [
      | inl (_, head, _) ↦ absurd (other (sym (ap (λ (x : Entry K V). x.key) head) ∙ s.same_key))
      | inr (ys, b, _) ↦ (
        (some s.entry, after_remove v key s),
        run,
        λ q h. emptied_lookup s q (ap length chain) (Split-second p e ys s chain b) h,
      )
    ]
  ]
