-- ===== src/Map/Resize.antt =====
-- The resize of applications/map/map.hpp: its two loops.
use coroutines.Base.{
  ℕ, zero, suc, ◌+◌, ◌^◌, ◌≤◌, ◌<◌, ◌≡◌, refl, List, [], ◌∷◌, Returns, length, length-append,
  length-replicate, replicate, arith,
}
use coroutines.Map.Core.{Key, Entry, Bucket, empty_bucket, insert_into_bucket}
use coroutines.Map.Operations.{rehash_chain, rehash_buckets}
use coroutines.Map.Chain.{
  find_in, occurs, or_else, find_in_absent, find_in-append, occurs-append, equal_refl,
}
use coroutines.Map.Table.{entries, AllHome, IsTable, Home_of}
use coroutines.Map.Write.{append-Appended}

empty-homes :
    (K V : Type 0) ⦃ops : Key K⦄ (capacity n i : ℕ)
    → AllHome {K = K} {V = V} capacity i (replicate n empty_bucket)
unfolding occurs
empty-homes K V capacity zero i = tt
empty-homes K V capacity (suc n) i =
    (record { sized = refl; once = λ q. ground arith }, empty-homes K V capacity n (suc i))

pub entries-empty :
    (K V : Type 0) ⦃ops : Key K⦄ (n : ℕ) → entries {K = K} {V = V} (replicate n empty_bucket) ≡ []
entries-empty K V zero = refl
entries-empty K V (suc n) = entries-empty K V n

module _ {K V : Type 0} ⦃ops : Key K⦄ (capacity : ℕ) where
  -- The array `after` holds what `before` held, and the entries `es`.
  pub record Rehashed (before : List (Bucket K V)) (es : List (Entry K V))
      (after : List (Bucket K V)) : Type 0 where
    pub table : IsTable capacity after
    pub total : length (entries after) ≡ length (entries before) + length es
    pub finds :
        (q : K) → find_in q (entries after) ≡ or_else (find_in q (entries before)) (find_in q es)
    pub counts : (q : K) → occurs q (entries after) ≡ occurs q (entries before) + occurs q es

  rehash_chain-Rehashed :
      (es : List (Entry K V)) (before : List (Bucket K V))
      → IsTable capacity before
      → ((q : K) → occurs q es + occurs q (entries before) ≤ 1)
      → Returns (rehash_chain capacity es before) (Rehashed before es)
  unfolding rehash_chain insert_into_bucket occurs find_in
  rehash_chain-Rehashed [] before t once = (
    before,
    refl,
    record { table = t; total = omega arith; finds = λ q. ground arith; counts = λ q. omega arith },
  )
  rehash_chain-Rehashed (e ∷ es) before t once =
      let b = insert_into_bucket (Home_of t e.key).bucket e in
      let w =
        append-Appended t e.key e.value b (ground (arith, once e.key, equal_refl e.key))
          (omega (
            arith,
            (Home_of t e.key).good.sized,
            length-append (Home_of t e.key).bucket.first (e ∷ []),
          ))
          refl in
      let (after, run, r) =
        rehash_chain-Rehashed es _ w.table (λ q. omega (arith, once q, w.counts q)) in
      (
        after,
        rw (Home_of t e.key).there run,
        record {
          table = r.table;
          total = omega (arith, r.total, w.total);
          finds =
              λ q. ground (arith, r.finds q, w.finds q, once q, find_in_absent q (entries before));
          counts = λ q. omega (arith, r.counts q, w.counts q);
        },
      )

  pub rehash_buckets-Rehashed :
      (bs before : List (Bucket K V))
      → IsTable capacity before
      → ((q : K) → occurs q (entries bs) + occurs q (entries before) ≤ 1)
      → Returns (rehash_buckets capacity bs before) (Rehashed before (entries bs))
  unfolding rehash_buckets occurs find_in
  rehash_buckets-Rehashed [] before t once = (
    before,
    refl,
    record { table = t; total = omega arith; finds = λ q. ground arith; counts = λ q. omega arith },
  )
  rehash_buckets-Rehashed (b ∷ bs) before t once =
      let split = λ (q : K). occurs-append q b.first (entries bs) in
      let (mid, run₁, r) =
        rehash_chain-Rehashed b.first before t (λ q. omega (arith, once q, split q)) in
      let (after, run₂, s) =
        rehash_buckets-Rehashed bs mid r.table (λ q. omega (arith, once q, split q, r.counts q)) in
      (
        after,
        rw run₁ run₂,
        record {
          table = s.table;
          total = omega (arith, s.total, r.total, length-append b.first (entries bs));
          finds = λ q. ground (arith, s.finds q, r.finds q, find_in-append q b.first (entries bs));
          counts = λ q. omega (arith, s.counts q, r.counts q, split q);
        },
      )

  pub empty-IsTable :
      0 < capacity
      → capacity < 2 ^ 64
      → IsTable {K = K} {V = V} capacity (replicate capacity empty_bucket)
  empty-IsTable pos small = record {
    width = length-replicate capacity empty_bucket;
    positive = pos;
    small = small;
    homes = empty-homes K V capacity capacity 0;
  }
