-- ===== src/Map/Write.antt =====
-- A write to one bucket of applications/map/map.hpp, and the append of a new key.
use coroutines.Base.{
  ℕ, ◌+◌, ◌≡◌, sym, subst, ap, ◌∙◌, inl, inr, true, none, some, List, [], ◌∷◌, ◌++◌, at,
  at-set_self, at-set_ne, set, length, length-append, length-set, if◌then◌else◌, ◌==◌, arith,
  Bool-cases,
}
use coroutines.Map.Core.{Key, Entry, Bucket}
use coroutines.Map.Chain.{find_in, occurs, or_else, find_in_absent, find_in-append, occurs-append}
use coroutines.Map.Table.{
  home, entries, IsHome, set-AllHome, length-entries-set, IsTable, home-lt, Home_of, Written,
}

pub home_of_equal :
    {K : Type 0} ⦃ops : Key K⦄ (capacity : ℕ) (q k : K)
    → ops.equal q k ≡ true
    → home capacity q ≡ home capacity k
home_of_equal ⦃ops⦄ capacity q k h = ap (home capacity) ((ops.equal_iff q k).0 h)

module _ {K V : Type 0} ⦃ops : Key K⦄ {capacity : ℕ} {bs : List (Bucket K V)}
    (t : IsTable capacity bs) where
  set-IsTable :
      (k : K) (b : Bucket K V)
      → IsHome capacity (home capacity k) b
      → IsTable capacity (set bs (home capacity k) b)
  set-IsTable k b g = record {
    width = length-set bs (home capacity k) b ∙ t.width;
    positive = t.positive;
    small = t.small;
    homes =
        set-AllHome capacity 0 (home capacity k) b bs t.homes
          (subst (λ n. IsHome capacity n b) (omega arith) g);
  }

  -- The bucket of `q` after a write to the bucket of `k`.
  bucket_after :
      (k q : K) (b : Bucket K V) (g : IsHome capacity (home capacity k) b)
      → (Home_of (set-IsTable k b g) q).bucket
        ≡ (if home capacity q == home capacity k then b else (Home_of t q).bucket)
  bucket_after k q b g =
      let new = Home_of (set-IsTable k b g) q in
      let old = Home_of t q in
      elim (Bool-cases (home capacity q == home capacity k)) [
        | inl e ↦
            let same : home capacity q ≡ home capacity k = ground arith in
            rw e (
              cc (
                new.there,
                at-set_self bs (home capacity k) b (home-lt t k),
                ap (at (set bs (home capacity k) b)) same,
              ))
        | inr e ↦
            let moved : at (set bs (home capacity k) b) (home capacity q)
                ≡ at bs (home capacity q) =
              at-set_ne bs (home capacity k) (home capacity q) b (ground arith) in
            rw e (cc (new.there, old.there, moved))
      ]

  pub set-Written :
      (k : K) (b : Bucket K V)
      → IsHome capacity (home capacity k) b
      → Written t k b (set bs (home capacity k) b)
  set-Written k b g =
      let new = set-IsTable k b g in
      record {
        table = new;
        total = length-entries-set (home capacity k) (Home_of t k).bucket b bs (Home_of t k).there;
        finds = λ q. ground (
          arith,
          (Home_of new q).finds,
          (Home_of t q).finds,
          ap (λ (x : Bucket K V). find_in q x.first) (bucket_after k q b g),
        );
        counts = λ q. ground (
          arith,
          (Home_of new q).counts,
          (Home_of t q).counts,
          ap (λ (x : Bucket K V). occurs q x.first) (bucket_after k q b g),
        );
      }

  -- The entry of a new key at the end of its chain.
  pub record Appended (k : K) (v : V) (bs' : List (Bucket K V)) : Type 0 where
    pub table : IsTable capacity bs'
    pub total : length (entries bs') ≡ length (entries bs) + 1
    pub finds :
        (q : K)
        → find_in q (entries bs') ≡ (if ops.equal q k then some v else find_in q (entries bs))
    pub counts :
        (q : K) → occurs q (entries bs') ≡ occurs q (entries bs) + (if ops.equal q k then 1 else 0)

  -- Keys with the same home share a bucket.
  same_bucket :
      (k q : K) → home capacity q ≡ home capacity k → (Home_of t q).bucket ≡ (Home_of t k).bucket
  same_bucket k q e = cc ((Home_of t q).there, (Home_of t k).there, ap (at bs) e)

  pub shared_finds :
      (k q : K)
      → home capacity q ≡ home capacity k
      → find_in q (entries bs) ≡ find_in q (Home_of t k).bucket.first
  shared_finds k q e = rw (← same_bucket k q e) (Home_of t q).finds

  -- What a chain with one more entry holds.
  record Longer (k : K) (v : V) (chain : List (Entry K V)) (q : K) : Type 0 where
    holds : occurs q chain ≡ occurs q (Home_of t k).bucket.first + (if ops.equal q k then 1 else 0)
    reads :
        find_in q chain
        ≡ or_else (find_in q (Home_of t k).bucket.first) (if ops.equal q k then some v else none)
    shared :
        home capacity q ≡ home capacity k
        → (occurs q (entries bs) ≡ occurs q (Home_of t k).bucket.first)
          × (find_in q (entries bs) ≡ find_in q (Home_of t k).bucket.first)
    own :
        ops.equal q k ≡ true
        → (home capacity q ≡ home capacity k) × (occurs q (Home_of t k).bucket.first ≡ 0)

  longer :
      (k : K) (v : V) (chain : List (Entry K V)) (q : K)
      → occurs k (entries bs) ≡ 0
      → chain ≡ (Home_of t k).bucket.first ++ record { key = k; value = v } ∷ []
      → Longer k v chain q
  unfolding occurs find_in
  longer k v chain q absent e = record {
    holds = rw (e, occurs-append q old) (omega arith);
    reads = rw (e, find_in-append q old);
    shared = λ h. (rw (← same_bucket k q h) (Home_of t q).counts, shared_finds k q h);
    own = λ h.
        let same : q ≡ k = (ops.equal_iff q k).0 h in
        (
          ap (home capacity) same,
          ap (λ (x : K). occurs x old) same ∙ sym (Home_of t k).counts ∙ absent,
        );
  }
    where
      old : List (Entry K V)
      old = (Home_of t k).bucket.first

  append-IsHome :
      (k : K) (v : V) (b : Bucket K V)
      → occurs k (entries bs) ≡ 0
      → b.n_items ≡ length b.first
      → b.first ≡ (Home_of t k).bucket.first ++ record { key = k; value = v } ∷ []
      → IsHome capacity (home capacity k) b
  append-IsHome k v b absent sized chain = record {
    sized = sized;
    once = λ q.
        let g = longer k v b.first q absent chain in
        ground (arith, g.holds, (Home_of t k).good.once q, g.own);
  }

  pub append-Appended :
      (k : K) (v : V) (b : Bucket K V)
      → occurs k (entries bs) ≡ 0
      → b.n_items ≡ length b.first
      → b.first ≡ (Home_of t k).bucket.first ++ record { key = k; value = v } ∷ []
      → Appended k v (set bs (home capacity k) b)
  append-Appended k v b absent sized chain =
      let w = set-Written k b (append-IsHome k v b absent sized chain) in
      record {
        table = w.table;
        total = omega (
          arith,
          w.total,
          ap length chain,
          length-append (Home_of t k).bucket.first (record { key = k; value = v } ∷ []),
        );
        finds = λ q.
            let g = longer k v b.first q absent chain in
            ground (
              arith,
              w.finds q,
              g.reads,
              g.shared,
              g.own,
              find_in_absent q (Home_of t k).bucket.first,
            );
        counts = λ q.
            let g = longer k v b.first q absent chain in
            ground (arith, w.counts q, g.holds, g.shared, g.own);
      }
