-- ===== src/Map/Removal.antt =====
-- What `remove` of applications/map/map.hpp makes of a valid map.
use coroutines.Base.{
  ℕ, zero, suc, ◌+◌, ◌-◌, ◌^◌, ◌≤◌, ◌<◌, ◌≡◌, refl, ap, ◌∙◌, none, List, [], ◌∷◌, ◌++◌, set, length,
  length-append, if◌then◌else◌, ◌==◌, arith,
}
use coroutines.Map.Core.{Key, Entry, Bucket, Map, decrement}
use coroutines.Map.Chain.{find_in, occurs, find_in_absent, occurs-append}
use coroutines.Map.Table.{home, entries, Home, Home_of, Written, length-entries-set}
use coroutines.Map.Write.{set-Written, shared_finds, home_of_equal}
use coroutines.Map.Valid.{view, IsValid}
use coroutines.Map.Remove.{Split, removed, chain_of}

module _ {K V : Type 0} ⦃ops : Key K⦄ where
  -- The entries of the array depend on the chains alone, not on the counts.
  entries-set_first :
      (bs : List (Bucket K V)) (i : ℕ) (b b' : Bucket K V)
      → b.first ≡ b'.first
      → entries (set bs i b) ≡ entries (set bs i b')
  entries-set_first [] i b b' e = refl
  entries-set_first (x ∷ bs) zero b b' e = ap (λ (c : List (Entry K V)). c ++ entries bs) e
  entries-set_first (x ∷ bs) (suc i) b b' e = ap (◌++◌ x.first) (entries-set_first bs i b b' e)

  module _ {m : Map K V} (v : IsValid m) (key : K) (s : Split key (chain_of m v key)) where
    abbrev old : Home m.capacity (home m.capacity key) key m.buckets
    old = Home_of v.table key

    abbrev index : ℕ
    index = home m.capacity key

    -- The bucket with the rest of the chain, and its exact count.
    abbrev exact : Bucket K V
    exact = record { first = s.after; n_items = length s.after }

    pub length-chain : length (chain_of m v key) ≡ length s.before + 1 + length s.after
    length-chain = omega (arith, ap length s.parts, length-append s.before (s.entry ∷ s.after))

    pub chain-le_count : length (chain_of m v key) ≤ m.n_items
    chain-le_count = omega (
      arith,
      v.counted,
      length-entries-set index old.bucket (record { first = []; n_items = 0 }) m.buckets old.there,
    )

    pub occurs-chain :
        (q : K) → occurs q (chain_of m v key) ≡ occurs q s.before + occurs q (s.entry ∷ s.after)
    occurs-chain q = ap (occurs q) s.parts ∙ occurs-append q s.before (s.entry ∷ s.after)

    exact-Written : Written v.table key exact (set m.buckets index exact)
    unfolding occurs
    exact-Written =
        set-Written v.table key exact
          (record { sized = refl; once = λ q. ground (arith, old.good.once q, occurs-chain q) })

    abbrev pub after_remove : Map K V
    after_remove = removed m index (length (chain_of m v key)) s.after

    -- Of the bucket only the chain behind the removed entry is left.
    pub view-removed :
        (q : K)
        → view after_remove q
          ≡ (if home m.capacity q == home m.capacity key then find_in q s.after else view m q)
    view-removed q =
        ap (find_in q) (entries-set_first m.buckets index _ exact refl) ∙ exact-Written.finds q

    pub total-removed :
        length (entries after_remove.buckets) + length s.before + 1 ≡ length (entries m.buckets)
    total-removed = omega (
      arith,
      ap length (
          entries-set_first m.buckets index
            (record { first = s.after; n_items = decrement (length (chain_of m v key)) }) exact
            refl),
      exact-Written.total,
      length-chain,
    )

    -- The map without the removed entry, with exact counts.
    abbrev pub without : Map K V
    without = record m { n_items = m.n_items - 1; buckets = set m.buckets index exact }

    pub after_remove-without : m.n_items < 2 ^ 61 → s.before ≡ [] → after_remove ≡ without
    after_remove-without few head =
        let n : decrement m.n_items ≡ m.n_items - 1 =
          ground (arith, chain-le_count, length-chain) in
        let k : decrement (length (chain_of m v key)) ≡ length s.after =
          ground (arith, chain-le_count, length-chain, ap length head) in
        λ i. record m {
          n_items = n i;
          buckets = set m.buckets index (record { first = s.after; n_items = k i });
        }

    pub without-IsValid : s.before ≡ [] → IsValid without
    without-IsValid head = record {
      table = exact-Written.table;
      counted = omega (arith, v.counted, exact-Written.total, length-chain, ap length head);
      power = v.power;
      fits = v.fits;
      in_word = v.in_word;
      sparse = λ p. omega (arith, v.sparse p);
    }

    -- The rest of the chain holds what the chain holds but the removed key.
    find_in-after :
        s.before ≡ []
        → (q : K) → home m.capacity q ≡ home m.capacity key
        → find_in q s.after ≡ (if ops.equal q key then none else view m q)
    unfolding find_in occurs
    find_in-after head q same = ground (
      arith,
      shared_finds v.table key q same,
      ap (find_in q) s.parts,
      ap (λ (x : List (Entry K V)). find_in q (x ++ s.entry ∷ s.after)) head,
      s.same_key,
      occurs-chain q,
      old.good.once q,
      find_in_absent q s.after,
    )

    pub view-without :
        s.before ≡ [] → (q : K) → view without q ≡ (if ops.equal q key then none else view m q)
    view-without head q =
        ground (arith, exact-Written.finds q, find_in-after head q, home_of_equal m.capacity q key)
