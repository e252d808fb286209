-- ===== src/Base/Bits.antt =====
-- `&` and the low mask: the native operation stands for a recursion on binary digits.
use Prim.Native.Nat.{
  ℕ, zero, suc, ◌+◌, ◌-◌, ◌*◌, ◌/◌, ◌%◌, ◌^◌, ◌≤◌, ◌<◌, min, bit_and, digits, bit_and-bitwise,
}
use mathlib.Core.Path.{◌≡◌, refl, ap, sym, ◌∙◌}
use native.Mathlib.Nat.{
  pow-suc, one-le-pow, div-add-mod, add-mul-mod_self_left, mod-eq_of_lt, mod-lt,
}
use native.Mathlib.Omega.{arith}
use native.Mathlib.Decide.{dec_lt}

-- What `bit_and` stands for, with fuel `m` for the digits of `a`.
abbrev masked : ℕ → ℕ → ℕ → ℕ
masked m a b = digits (λ _. 0) min m a b

masked-zero : (m b : ℕ) → masked m 0 b ≡ 0
masked-zero zero b = refl
masked-zero (suc m) b = refl

masked-suc : (m a b : ℕ) → a ≤ m → masked (suc m) a b ≡ masked m a b
masked-suc m zero b h = sym (masked-zero m b)
masked-suc zero (suc a) b h = absurd (omega arith)
masked-suc (suc m) (suc a) b h = omega (arith, masked-suc m (suc a / 2) (b / 2) (omega arith))

-- Fuel beyond the number adds nothing.
masked-grow : (n a b : ℕ) → a ≤ n → masked n a b ≡ bit_and a b
masked-grow zero zero b h = sym (bit_and-bitwise 0 b)
masked-grow zero (suc a) b h = absurd (omega arith)
masked-grow (suc n) a b h = elim (dec_lt n a) [
  | no small ↦ masked-suc n a b (omega arith) ∙ masked-grow n a b (omega arith)
  | yes large ↦
      let e : suc n ≡ a = omega arith in ap (λ (m : ℕ). masked m a b) e ∙ sym (bit_and-bitwise a b)
]

pub bit_and-digit : (a b : ℕ) → bit_and a b ≡ 2 * bit_and (a / 2) (b / 2) + min (a % 2) (b % 2)
bit_and-digit zero b = omega (arith, bit_and-bitwise 0 b, bit_and-bitwise 0 (b / 2))
bit_and-digit (suc a) b =
    omega (arith, bit_and-bitwise (suc a) b, masked-grow a (suc a / 2) (b / 2) (omega arith))

bit_and-le_fuel : (n a b : ℕ) → a ≤ n → bit_and a b ≤ b
bit_and-le_fuel n zero b h = omega (arith, bit_and-bitwise 0 b)
bit_and-le_fuel zero (suc a) b h = absurd (omega arith)
bit_and-le_fuel (suc n) (suc a) b h =
    omega (arith, bit_and-digit (suc a) b, bit_and-le_fuel n (suc a / 2) (b / 2) (omega arith))

-- A masked number is at most its mask.
pub bit_and-le : (a b : ℕ) → bit_and a b ≤ b
bit_and-le a b = bit_and-le_fuel a a b (omega arith)

-- A remainder by an even number, digit by digit.
mod-double : (p a : ℕ) → 0 < p → a % (p * 2) ≡ 2 * (a / 2 % p) + a % 2
mod-double p a h =
    let q = a / 2 / p in
    let r = 2 * (a / 2 % p) + a % 2 in
    let e : a ≡ r + p * 2 * q = omega (arith, div-add-mod (a / 2) p) in
    ap (λ (t : ℕ). t % (p * 2)) e
    ∙ add-mul-mod_self_left r (p * 2) q
    ∙ mod-eq_of_lt (omega (arith, mod-lt (a / 2) h))

-- The low `k` bits are the remainder by `2 ^ k`.
pub bit_and-low : (k a : ℕ) → bit_and a (2 ^ k - 1) ≡ a % 2 ^ k
bit_and-low zero a = omega (arith, bit_and-le a 0)
bit_and-low (suc k) a =
    let pos = one-le-pow k 2 (omega arith) in
    let halves : (2 ^ k * 2 - 1) / 2 ≡ 2 ^ k - 1 = omega (arith, pos) in
    rw pow-suc (
      omega (
        arith,
        bit_and-digit a (2 ^ k * 2 - 1),
        pos,
        ap (bit_and (a / 2)) halves,
        bit_and-low k (a / 2),
        mod-double (2 ^ k) a pos,
      ))
