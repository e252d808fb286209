-- ===== src/Map/Stats.antt =====
-- The statistics of applications/map/map.hpp.
use native.Mathlib.Decide.{dec_le}
use Prim.Native.Nat.{min, max}
use coroutines.Base.{
  at-total, ℕ, zero, suc, ◌+◌, ◌-◌, ◌/◌, ◌^◌, ◌≤◌, ◌<◌, ◌≡◌, refl, ap, ◌∙◌, List, [], ◌∷◌, Result,
  ok, at, length, length-append, ◌⊎◌, inl, inr, arith,
}
use coroutines.Map.Core.{Key, Bucket, Map, word}
use coroutines.Map.Table.{entries, AllHome}
use coroutines.Map.Valid.{IsValid}

-- `StatsResult`. The load factor, a quotient of two floating point numbers, is kept as the two.
pub record StatsResult : Type 0 where
  pub count : ℕ
  pub capacity : ℕ
  pub max_capacity : ℕ
  pub load_factor : ℕ × ℕ
  pub min_bucket_depth : ℕ
  pub max_bucket_depth : ℕ
  pub avg_bucket_depth : ℕ

module _ {K V : Type 0} where
  -- The loop of `stats` over the buckets.
  unfoldable pub stats_loop : List (Bucket K V) → ℕ → ℕ → ℕ → ℕ × ℕ × ℕ
  stats_loop [] min_length max_length sum_length = (min_length, max_length, sum_length)
  stats_loop (bucket ∷ buckets) min_length max_length sum_length =
      stats_loop buckets (min bucket.n_items min_length) (max bucket.n_items max_length)
        (word (sum_length + bucket.n_items))

  unfoldable pub stats : Map K V → StatsResult
  stats m =
      let (min_length, max_length, sum_length) = stats_loop m.buckets (2 ^ 64 - 1) 0 0 in
      record {
        count = m.n_items;
        capacity = m.capacity;
        max_capacity = m.max_capacity;
        load_factor = (m.n_items, m.capacity);
        min_bucket_depth = min_length;
        max_bucket_depth = max_length;
        avg_bucket_depth = sum_length / m.capacity;
      }

  -- The depth of one of the buckets.
  abbrev pub Depth : List (Bucket K V) → ℕ → Type 0
  Depth bs n = (i : ℕ) × (b : Bucket K V) × (at bs i ≡ ok b) × (length b.first ≡ n)

module _ {K V : Type 0} ⦃ops : Key K⦄ where
  -- What the loop makes of its three variables.
  record Looped (bs : List (Bucket K V)) (lo hi total : ℕ) (r : ℕ × ℕ × ℕ) : Type 0 where
    low : r.0 ≤ lo
    high : hi ≤ r.1
    between :
        (i : ℕ) (b : Bucket K V) → at bs i ≡ ok b → (r.0 ≤ length b.first) × (length b.first ≤ r.1)
    lowest : (r.0 ≡ lo) ⊎ Depth bs r.0
    highest : (r.1 ≡ hi) ⊎ Depth bs r.1
    sum : r.2 ≡ total + length (entries bs)

  Depth-next : (b : Bucket K V) (bs : List (Bucket K V)) {n : ℕ} → Depth bs n → Depth (b ∷ bs) n
  Depth-next b bs (i, c, e, d) = (suc i, c, e, d)

  first-between :
      {b c : Bucket K V} {lo hi : ℕ}
      → ◌≡◌ {A = Result (Bucket K V)} (ok b) (ok c)
      → (lo ≤ length b.first) × (length b.first ≤ hi)
      → (lo ≤ length c.first) × (length c.first ≤ hi)
  first-between {b} {c} e (below, above) =
      let same : length b.first ≡ length c.first =
        ap (λ (d : Bucket K V). length d.first) (injective e) in
      (omega (arith, below, same), omega (arith, above, same))
    where
      injective : {b c : Bucket K V} → ◌≡◌ {A = Result (Bucket K V)} (ok b) (ok c) → b ≡ c
      injective e = cc e

  places :
      (b : Bucket K V) (bs : List (Bucket K V)) (lo hi : ℕ)
      → lo ≤ length b.first
      → length b.first ≤ hi
      → ((i : ℕ) (c : Bucket K V) → at bs i ≡ ok c → (lo ≤ length c.first) × (length c.first ≤ hi))
      → (i : ℕ) (c : Bucket K V) → at (b ∷ bs) i ≡ ok c
      → (lo ≤ length c.first) × (length c.first ≤ hi)
  places b bs lo hi below above rest zero c e = first-between e (below, above)
  places b bs lo hi below above rest (suc i) c e = rest i c e

  stats_loop-Looped :
      (capacity i : ℕ) (bs : List (Bucket K V)) (lo hi total : ℕ)
      → AllHome capacity i bs
      → total + length (entries bs) < 2 ^ 64
      → Looped bs lo hi total (stats_loop bs lo hi total)
  unfolding stats_loop
  stats_loop-Looped capacity i [] lo hi total homes few = record {
    low = omega arith;
    high = omega arith;
    between = λ i b e. cc e;
    lowest = inl refl;
    highest = inl refl;
    sum = omega arith;
  }
  stats_loop-Looped capacity i (b ∷ bs) lo hi total homes few =
      let n = b.n_items in
      let sized : n ≡ length b.first = homes.0.sized in
      let whole = length-append b.first (entries bs) in
      let plain : word (total + n) ≡ total + n = omega (arith, few, whole, sized) in
      let rest =
        stats_loop-Looped capacity (suc i) bs (min n lo) (max n hi) (word (total + n)) homes.1
          (omega (arith, few, whole, sized, plain)) in
      record {
        low = omega (arith, rest.low);
        high = omega (arith, rest.high);
        between =
            places b bs _ _ (omega (arith, rest.low, sized)) (omega (arith, rest.high, sized))
              rest.between;
        lowest = elim rest.lowest [
          | inr d ↦ inr (Depth-next b bs d)
          | inl e ↦ elim (dec_le n lo) [
            | yes h ↦ inr (0, b, refl, omega (arith, e, h, sized))
            | no h ↦ inl (omega (arith, e, h))
          ]
        ];
        highest = elim rest.highest [
          | inr d ↦ inr (Depth-next b bs d)
          | inl e ↦ elim (dec_le hi n) [
            | yes h ↦ inr (0, b, refl, omega (arith, e, h, sized))
            | no h ↦ inl (omega (arith, e, h))
          ]
        ];
        sum = omega (arith, rest.sum, whole, sized, plain);
      }

  length-entries :
      (bs : List (Bucket K V)) (i : ℕ) (b : Bucket K V)
      → at bs i ≡ ok b
      → length b.first ≤ length (entries bs)
  length-entries [] i b e = cc e
  length-entries (c ∷ bs) zero b e =
      let (_, part) =
        first-between {b = c} {c = b} {lo = 0} {hi = length (entries (c ∷ bs))} e
          (omega arith, omega (arith, length-append c.first (entries bs))) in
      part
  length-entries (c ∷ bs) (suc i) b e =
      omega (arith, length-entries bs i b e, length-append c.first (entries bs))

  -- On a valid map with fewer than 2 ^ 61 items `stats` gives the number of entries; its minimum
  -- and maximum bound the depth of every bucket, and each is the depth of one; its average is the
  -- number of entries over the capacity, rounded down.
  pub stats-IsValid :
      (m : Map K V)
      → IsValid m
      → m.n_items < 2 ^ 61
      → ((stats m).count ≡ length (entries m.buckets))
        × ((i : ℕ) (b : Bucket K V)
            → at m.buckets i ≡ ok b
            → ((stats m).min_bucket_depth ≤ length b.first)
              × (length b.first ≤ (stats m).max_bucket_depth))
        × Depth m.buckets (stats m).min_bucket_depth
        × Depth m.buckets (stats m).max_bucket_depth
        × ((stats m).avg_bucket_depth ≡ length (entries m.buckets) / m.capacity)
  unfolding stats
  stats-IsValid m v few =
      let t = v.table in
      let l =
        stats_loop-Looped m.capacity 0 m.buckets (2 ^ 64 - 1) 0 0 t.homes
          (omega (arith, v.counted, few)) in
      let (b, here) = at-total m.buckets 0 (omega (arith, t.width, t.positive)) in
      let (above, below) = l.between 0 b here in
      let part = length-entries m.buckets 0 b here in
      (
        v.counted,
        l.between,
        elim l.lowest [
          | inr d ↦ d
          | inl e ↦ absurd (omega (arith, e, above, part, v.counted, few))
        ],
        elim l.highest [ inr d ↦ d | inl e ↦ (0, b, here, omega (arith, e, below)) ],
        ap (λ n. n / m.capacity) (l.sum ∙ omega arith),
      )
