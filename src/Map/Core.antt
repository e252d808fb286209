-- ===== src/Map/Core.antt =====
-- applications/map/map.hpp: entries, buckets, the map object, the bucket index and the sizes.
use coroutines.Base.{
  ℕ, ◌+◌, ◌-◌, ◌*◌, ◌/◌, ◌%◌, ◌^◌, min, bit_and, bit_or, ◌≡◌, ◌↔◌, Bool, true, ◌&&◌, List, [], ◌∷◌,
  ◌++◌, Result, ok, err, runtime_error, ltb, leb, ◌==◌, if◌then◌else◌, replicate,
}

-- The template parameters KeyT (its `operator==`) and Hasher. Equality decides the identity of
-- keys, and the hash is a function of the key.
pub record Key (K : Type 0) : Type 0 where
  pub equal : K → K → Bool
  pub equal_iff : (a b : K) → (equal a b ≡ true) ↔ (a ≡ b)
  pub hasher : K → ℕ

-- An `Entry`. Its `next` pointer is its place in the list of its bucket.
pub record Entry (K V : Type 0) : Type 0 where
  pub key : K
  pub value : V

-- `first` is the chain that starts at the pointer; the empty list is `nullptr`.
pub record Bucket (K V : Type 0) : Type 0 where
  pub first : List (Entry K V)
  pub n_items : ℕ

pub record Map (K V : Type 0) : Type 0 where
  pub n_items : ℕ
  pub capacity : ℕ
  pub max_capacity : ℕ
  pub buckets : List (Bucket K V)

-- `std::size_t` has 64 bits.
abbrev pub word : ℕ → ℕ
word n = n % 2 ^ 64

-- `--n`, which wraps at 0. An increment is plain: it counts objects that lie in memory.
abbrev pub decrement : ℕ → ℕ
decrement n = word (n + 2 ^ 64 - 1)

abbrev pub default_init_capacity : ℕ
default_init_capacity = 16

abbrev pub default_max_capacity : ℕ
default_max_capacity = 2 ^ 64 - 1

-- n |= n >> s
abbrev pub smear : ℕ → ℕ → ℕ
smear s n = bit_or n (n / 2 ^ s)

unfoldable pub next_power_of_2 : ℕ → ℕ
next_power_of_2 n =
    word (smear 32 (smear 16 (smear 8 (smear 4 (smear 2 (smear 1 (decrement n)))))) + 1)

-- `hash & (capacity - 1)`
unfoldable pub index_in : ℕ → ℕ → ℕ
index_in capacity hash = bit_and hash (decrement capacity)

abbrev pub empty_bucket : {K V : Type 0} → Bucket K V
empty_bucket = record { first = []; n_items = 0 }

unfoldable pub init_capacity : ℕ → ℕ
init_capacity max_capacity = next_power_of_2 (min default_init_capacity max_capacity) / 2

-- The constructor `Map(max_capacity)`.
unfoldable pub new_map : {K V : Type 0} → ℕ → Result (Map K V)
new_map max_capacity =
    if max_capacity == 0
    then err runtime_error
    else ok (record {
      n_items = 0;
      capacity = init_capacity max_capacity;
      max_capacity = max_capacity;
      buckets = replicate (init_capacity max_capacity) empty_bucket;
    })

-- The constructor `Map()`.
unfoldable pub default_map : {K V : Type 0} → Result (Map K V)
default_map = new_map default_max_capacity

-- The quotient of the two doubles exceeds 0.5 exactly when twice the items exceed the capacity:
-- the capacity is a power of two, and both counts are below 2 ^ 53.
unfoldable pub resize_required : {K V : Type 0} → Map K V → Bool
resize_required m = ltb m.capacity (2 * m.n_items) && leb (word (2 * m.capacity)) m.max_capacity

unfoldable pub count : {K V : Type 0} → Map K V → ℕ
count m = m.n_items

-- The entry goes to the end of the chain.
unfoldable pub insert_into_bucket : {K V : Type 0} → Bucket K V → Entry K V → Bucket K V
insert_into_bucket b entry = record { first = b.first ++ entry ∷ []; n_items = b.n_items + 1 }
