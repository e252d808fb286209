-- ===== src/Map/Valid.antt =====
-- The well-formed maps of applications/map/map.hpp: the invariant of the class, what the
-- constructors establish, and the resize that ends an insertion.
use coroutines.Base.{
  ℕ, suc, ◌+◌, ◌*◌, ◌^◌, ◌≤◌, ◌<◌, ◌≡◌, refl, ap, ◌∙◌, inl, inr, true, false, Option, none, List,
  ok, Returns, length, replicate, arith, Bool-cases,
}
use native.Mathlib.Nat.{pow-suc}
use coroutines.Map.Core.{
  Key, Entry, Bucket, Map, word, empty_bucket, resize_required, new_map, init_capacity, count,
}
use coroutines.Map.Capacity.{init_capacity-IsCapacity}
use coroutines.Map.Operations.{rehash_buckets, perform_resize_if_required}
use coroutines.Map.Chain.{find_in, occurs, or_else}
use coroutines.Map.Table.{entries, IsTable, Home_of}
use coroutines.Map.Resize.{rehash_buckets-Rehashed, empty-IsTable, entries-empty}

module _ {K V : Type 0} ⦃ops : Key K⦄ where
  -- The abstract map: the value of a key among all entries.
  abbrev pub view : Map K V → K → Option V
  view m k = find_in k (entries m.buckets)

  -- The load allows for `slack` items above half the capacity.
  pub record IsLoaded (slack : ℕ) (m : Map K V) : Type 0 where
    pub table : IsTable m.capacity m.buckets
    pub counted : m.n_items ≡ length (entries m.buckets)
    pub power : (e : ℕ) × (m.capacity ≡ 2 ^ e)
    pub fits : m.capacity ≤ m.max_capacity
    pub in_word : m.max_capacity < 2 ^ 64
    pub sparse : 2 * m.capacity ≤ m.max_capacity → 2 * m.n_items ≤ m.capacity + slack

  -- The invariant of the class: the capacity is a power of two within the maximum, every entry
  -- stands once, in the bucket of its hash, all counts are exact, and the load factor exceeds
  -- one half only if the table cannot be doubled.
  abbrev pub IsValid : Map K V → Type 0
  IsValid = IsLoaded 0

  pub occurs-le_one :
      {m : Map K V} {slack : ℕ} → IsLoaded slack m → (k : K) → occurs k (entries m.buckets) ≤ 1
  occurs-le_one v k = ground (arith, (Home_of v.table k).counts, (Home_of v.table k).good.once k)

  -- A resize keeps the items and the view, and settles the load.
  pub record Resized (m r : Map K V) : Type 0 where
    pub valid : IsValid r
    pub same_count : r.n_items ≡ m.n_items
    pub same_max : r.max_capacity ≡ m.max_capacity
    pub same_view : (q : K) → view r q ≡ view m q

  perform_doubled :
      (m : Map K V) (c : ℕ) (bs : List (Bucket K V))
      → resize_required m ≡ true
      → word (2 * m.capacity) ≡ c
      → rehash_buckets c m.buckets (replicate c empty_bucket) ≡ ok bs
      → perform_resize_if_required m ≡ ok (record m { buckets = bs; capacity = c })
  unfolding perform_resize_if_required
  perform_doubled m c bs e wide run = rw (e, wide, run)

  -- On a well-formed map with fewer than 2 ^ 61 items, whose load allows at most one item too
  -- many, `perform_resize_if_required` runs without a fault; the result is valid, and has the same
  -- count, the same maximum capacity and the same value for every key.
  pub resize-Resized :
      (m : Map K V)
      → IsLoaded 2 m
      → m.n_items < 2 ^ 61
      → Returns (perform_resize_if_required m) (Resized m)
  unfolding perform_resize_if_required resize_required occurs find_in
  resize-Resized m v few = elim (Bool-cases (resize_required m)) [
    | inr e ↦ (
      m,
      rw e,
      record { valid = settled e; same_count = refl; same_max = refl; same_view = λ q. refl },
    )
    | inl e ↦
        let wide : word (2 * m.capacity) ≡ 2 * m.capacity = ground arith in
        let start : IsTable (2 * m.capacity) (replicate (2 * m.capacity) empty_bucket) =
          empty-IsTable (2 * m.capacity) (omega arith) (ground arith) in
        let nothing = entries-empty K V (2 * m.capacity) in
        let (bs, run, r) =
          rehash_buckets-Rehashed (2 * m.capacity) m.buckets
            (replicate (2 * m.capacity) empty_bucket) start
            (λ q. omega (arith, ap (occurs q) nothing, occurs-le_one v q)) in
        (
          record m { buckets = bs; capacity = 2 * m.capacity },
          perform_doubled m (2 * m.capacity) bs e wide run,
          record {
            valid = record {
              table = r.table;
              counted = omega (arith, v.counted, r.total, ap length nothing);
              power = (suc v.power.0, ground (arith, v.power.1, pow-suc 2 v.power.0));
              fits = ground arith;
              in_word = v.in_word;
              sparse = λ h. ground arith;
            };
            same_count = refl;
            same_max = refl;
            same_view = λ q.
                r.finds q
                ∙ ap (λ (es : List (Entry K V)). or_else (find_in q es) (view m q)) nothing;
          },
        )
  ]
    where
      settled : resize_required m ≡ false → IsValid m
      settled e = record {
        table = v.table;
        counted = v.counted;
        power = v.power;
        fits = v.fits;
        in_word = v.in_word;
        sparse = λ h. ground arith;
      }

  -- With a maximum capacity of 2 or more, below 2 ^ 64, the constructor builds a valid map with no
  -- items, that maximum, and no value for any key.
  pub new_map-IsValid :
      (max_capacity : ℕ)
      → 1 < max_capacity
      → max_capacity < 2 ^ 64
      → Returns (new_map max_capacity) λ m.
        IsValid m × (count m ≡ 0) × (m.max_capacity ≡ max_capacity) × ((q : K) → view m q ≡ none)
  unfolding new_map find_in count
  new_map-IsValid max_capacity two small =
      let c = init_capacity max_capacity in
      let (le, pos, le_eight, power) = init_capacity-IsCapacity max_capacity two in
      let nothing = entries-empty K V c in
      (
        record {
          n_items = 0;
          capacity = c;
          max_capacity = max_capacity;
          buckets = replicate c empty_bucket;
        },
        ground arith,
        (
          record {
            table = empty-IsTable c pos (omega arith);
            counted = omega (arith, ap length nothing);
            power = power;
            fits = le;
            in_word = small;
            sparse = λ h. omega arith;
          },
          refl,
          refl,
          λ q. ap (find_in q) nothing,
        ),
      )
