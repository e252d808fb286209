-- ===== src/Map/Table.antt =====
-- The bucket array of applications/map/map.hpp: every entry stands in the bucket of its hash, at
-- most once, and what a write to one bucket does to the whole.
use coroutines.Base.Bits.{bit_and-le}
use coroutines.Base.{
  ℕ, zero, suc, ◌+◌, ◌^◌, ◌≤◌, ◌<◌, ◌≡◌, refl, subst, ap, List, [], ◌∷◌, ◌++◌, ok, at, set, length,
  length-append, if◌then◌else◌, ◌==◌, arith,
}
use coroutines.Map.Core.{Key, Entry, Bucket, index_in, decrement}
use coroutines.Map.Chain.{find_in, occurs, find_in_absent, find_in-append, occurs-append}

-- The mask is below the capacity.
pub index_in-lt :
    (capacity hash : ℕ) → 0 < capacity → capacity < 2 ^ 64 → index_in capacity hash < capacity
unfolding index_in
index_in-lt capacity hash pos small = omega (arith, bit_and-le hash (decrement capacity))

-- Where the key belongs in an array of that capacity.
abbrev pub home : {K : Type 0} ⦃ops : Key K⦄ → ℕ → K → ℕ
home ⦃ops⦄ capacity k = index_in capacity (ops.hasher k)

module _ {K V : Type 0} ⦃ops : Key K⦄ where
  -- All entries, bucket by bucket.
  abbrev pub entries : List (Bucket K V) → List (Entry K V)
  entries [] = []
  entries (b ∷ bs) = b.first ++ entries bs

  -- Bucket `i` counts its chain, and holds only keys that belong there, each once.
  pub record IsHome (capacity i : ℕ) (b : Bucket K V) : Type 0 where
    pub sized : b.n_items ≡ length b.first
    pub once : (k : K) → occurs k b.first ≤ (if home capacity k == i then 1 else 0)

  -- The same for each bucket, from index `i` on.
  abbrev pub AllHome : ℕ → ℕ → List (Bucket K V) → Type 0
  AllHome capacity i [] = Unit {0}
  AllHome capacity i (b ∷ bs) = IsHome capacity i b × AllHome capacity (suc i) bs

  pub absent_beyond :
      (capacity i : ℕ) (k : K) (bs : List (Bucket K V))
      → AllHome capacity i bs
      → home capacity k < i
      → occurs k (entries bs) ≡ 0
  unfolding occurs
  absent_beyond capacity i k [] h lt = refl
  absent_beyond capacity i k (b ∷ bs) h lt = ground (
    arith,
    occurs-append k b.first (entries bs),
    h.0.once k,
    absent_beyond capacity (suc i) k bs h.1,
  )

  -- A key occurs in the array as it occurs in its own bucket.
  pub record Home (capacity j : ℕ) (k : K) (bs : List (Bucket K V)) : Type 0 where
    pub bucket : Bucket K V
    pub there : at bs j ≡ ok bucket
    pub good : IsHome capacity (home capacity k) bucket
    pub finds : find_in k (entries bs) ≡ find_in k bucket.first
    pub counts : occurs k (entries bs) ≡ occurs k bucket.first

  pub Home_at :
      (capacity i j : ℕ) (k : K) (bs : List (Bucket K V))
      → AllHome capacity i bs
      → home capacity k ≡ i + j
      → j < length bs
      → Home capacity j k bs
  Home_at capacity i j k [] h e lt = absurd (omega arith)
  Home_at capacity i zero k (b ∷ bs) h e lt =
      let none_after : occurs k (entries bs) ≡ 0 =
        absent_beyond capacity (suc i) k bs h.1 (omega arith) in
      record {
        bucket = b;
        there = refl;
        good = subst (λ n. IsHome capacity n b) (omega arith) h.0;
        finds = ground (
          arith,
          find_in-append k b.first (entries bs),
          find_in_absent k (entries bs) none_after,
        );
        counts = omega (arith, occurs-append k b.first (entries bs), none_after);
      }
  Home_at capacity i (suc j) k (b ∷ bs) h e lt =
      let rest = Home_at capacity (suc i) j k bs h.1 (omega arith) (omega arith) in
      let not_here : occurs k b.first ≡ 0 = ground (arith, h.0.once k) in
      record {
        bucket = rest.bucket;
        there = rest.there;
        good = rest.good;
        finds =
            rw (find_in-append k b.first (entries bs), find_in_absent k b.first not_here)
              rest.finds;
        counts = omega (arith, occurs-append k b.first (entries bs), not_here, rest.counts);
      }

  pub set-AllHome :
      (capacity i j : ℕ) (b : Bucket K V) (bs : List (Bucket K V))
      → AllHome capacity i bs
      → IsHome capacity (i + j) b
      → AllHome capacity i (set bs j b)
  set-AllHome capacity i j b [] h g = tt
  set-AllHome capacity i zero b (x ∷ bs) h g =
      (subst (λ n. IsHome capacity n b) (omega arith) g, h.1)
  set-AllHome capacity i (suc j) b (x ∷ bs) h g = (
    h.0,
    set-AllHome capacity (suc i) j b bs h.1 (subst (λ n. IsHome capacity n b) (omega arith) g),
  )

  pub length-entries-set :
      (j : ℕ) (old b : Bucket K V) (bs : List (Bucket K V))
      → at bs j ≡ ok old
      → length (entries (set bs j b)) + length old.first ≡ length (entries bs) + length b.first
  length-entries-set j old b [] h = cc
  length-entries-set zero old b (x ∷ bs) h =
      let e : x ≡ old = cc in
      omega (
        arith,
        length-append b.first (entries bs),
        length-append x.first (entries bs),
        ap (λ (t : Bucket K V). length t.first) e,
      )
  length-entries-set (suc j) old b (x ∷ bs) h = omega (
    arith,
    length-append x.first (entries (set bs j b)),
    length-append x.first (entries bs),
    length-entries-set j old b bs h,
  )

  -- A whole array: as many buckets as the capacity says, each with its own keys.
  pub record IsTable (capacity : ℕ) (bs : List (Bucket K V)) : Type 0 where
    pub width : length bs ≡ capacity
    pub positive : 0 < capacity
    pub small : capacity < 2 ^ 64
    pub homes : AllHome capacity 0 bs

  module _ {capacity : ℕ} {bs : List (Bucket K V)} (t : IsTable capacity bs) where
    pub home-lt : (k : K) → home capacity k < length bs
    home-lt k = omega (arith, t.width, index_in-lt capacity (ops.hasher k) t.positive t.small)

    -- The bucket of a key is there, and says all about the key.
    pub Home_of : (k : K) → Home capacity (home capacity k) k bs
    Home_of k = Home_at capacity 0 (home capacity k) k bs t.homes (omega arith) (home-lt k)

    -- What a write of `b` to the bucket of `k` does.
    pub record Written (k : K) (b : Bucket K V) (bs' : List (Bucket K V)) : Type 0 where
      pub table : IsTable capacity bs'
      pub total :
          length (entries bs') + length (Home_of k).bucket.first
          ≡ length (entries bs) + length b.first
      pub finds :
          (q : K)
          → find_in q (entries bs') ≡ (
              if home capacity q == home capacity k
              then find_in q b.first
              else find_in q (entries bs))
      pub counts :
          (q : K)
          → occurs q (entries bs') ≡ (
              if home capacity q == home capacity k
              then occurs q b.first
              else occurs q (entries bs))
