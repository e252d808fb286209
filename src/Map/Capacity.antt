-- ===== src/Map/Capacity.antt =====
-- The initial capacity of applications/map/map.hpp, `next_power_of_2(min(16, max)) >> 1`.
use coroutines.Base.{
  ℕ, zero, suc, ◌/◌, ◌^◌, ◌≤◌, ◌<◌, ◌≡◌, refl, Bool, true, ◌&&◌, ◌||◌, min, if◌then◌else◌, leb,
  ◌==◌, arith,
}
use coroutines.Map.Core.{next_power_of_2, init_capacity}

-- The test holds at every number under the bound.
holds_under : (ℕ → Bool) → ℕ → Bool
holds_under test zero = true
holds_under test (suc bound) = holds_under test bound && test bound

holds_at :
    (test : ℕ → Bool) (bound i : ℕ) → i < bound → holds_under test bound ≡ true → test i ≡ true
unfolding holds_under
holds_at test zero i below all = absurd (omega arith)
holds_at test (suc bound) i below all = ground (arith, holds_at test bound i)

-- From 2 to 16 the half of the next power of two is a power of two, and fits.
fits : ℕ → ℕ → Bool
fits n h = leb n 1 || (leb h n && (h == 1 || h == 2 || h == 4 || h == 8))

fits_table : holds_under (λ n. fits n (next_power_of_2 n / 2)) 17 ≡ true
unfolding holds_under fits next_power_of_2
fits_table = refl

-- A power of two, within the maximum.
abbrev pub IsCapacity : ℕ → ℕ → Type 0
IsCapacity n c = (c ≤ n) × (0 < c) × (c ≤ 8) × ((e : ℕ) × (c ≡ 2 ^ e))

power_of : ℕ → ℕ
power_of c = if c == 1 then 0 else if c == 2 then 1 else if c == 4 then 2 else 3

fits-IsCapacity : (n c : ℕ) → 1 < n → fits n c ≡ true → IsCapacity n c
unfolding fits power_of
fits-IsCapacity n c h t = (ground arith, ground arith, ground arith, (power_of c, ground arith))

pub init_capacity-IsCapacity :
    (max_capacity : ℕ) → 1 < max_capacity → IsCapacity max_capacity (init_capacity max_capacity)
unfolding init_capacity
init_capacity-IsCapacity max_capacity h =
    let n = min 16 max_capacity in
    let (a, b, c, d) =
      fits-IsCapacity n (next_power_of_2 n / 2) (omega arith)
        (holds_at _ 17 n (omega arith) fits_table) in
    (omega arith, b, c, d)
