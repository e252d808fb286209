-- ===== src/Search/Vanilla.antt =====
-- The search of applications/binary-search/vanilla.hpp on sorted arrays.
use coroutines.Base.Int.{ℤ, ltb_ℤ, eqb_ℤ, eqb_ℤ_iff, ◌≤ℤ◌}
use coroutines.Base.{
  ℕ, zero, suc, ◌+◌, ◌-◌, ◌/◌, ◌≤◌, ◌<◌, ◌≡◌, refl, ap, ◌∙◌, inl, inr, Bool, true, false, List, ok,
  Returns, at, at-total, at-lt, length, if◌then◌else◌, Bool-cases, dec_lt, ◌↔◌, arith,
}
use coroutines.Search.Core.{vanilla_loop, vanilla_binary_search}

abbrev pub IsSorted : List ℤ → Type 0
IsSorted items = (i j : ℕ) (x y : ℤ) → i ≤ j → at items i ≡ ok x → at items j ≡ ok y → x ≤ℤ y

-- The value stands at one of the positions `first` to `first + len - 1`.
abbrev pub Holds : List ℤ → ℕ → ℕ → ℤ → Type 0
Holds items first len val = (i : ℕ) × (first ≤ i) × (i < first + len) × (at items i ≡ ok val)

-- What an answer says.
abbrev pub Decides : Bool → Type 0 → Type 0
Decides true P = P
Decides false P = ¬ P

-- One round of the loop: no range is left, or the middle is read and compared.
pub vanilla_loop-zero :
    (fuel : ℕ) (items : List ℤ) (first : ℕ) (val : ℤ)
    → vanilla_loop (suc fuel) items first 0 val ≡ ok false
unfolding vanilla_loop
vanilla_loop-zero fuel items first val = refl

pub vanilla_round :
    (fuel : ℕ) (items : List ℤ) (first len : ℕ) (val x : ℤ)
    → 0 < len
    → at items (first + len / 2) ≡ ok x
    → vanilla_loop (suc fuel) items first len val ≡ (
        if eqb_ℤ x val
        then ok true
        else if ltb_ℤ x val
        then vanilla_loop fuel items (first + len / 2 + 1) (len - len / 2 - 1) val
        else vanilla_loop fuel items first (len / 2) val)
unfolding vanilla_loop
vanilla_round fuel items first len val x h e = ground arith

module _ (items : List ℤ) (sorted : IsSorted items) (val : ℤ) where
  -- The half that is kept holds the value if the whole does.
  Holds-above :
      (first len : ℕ) (x : ℤ)
      → 0 < len
      → at items (first + len / 2) ≡ ok x
      → ltb_ℤ x val ≡ true
      → Holds items first len val ↔ Holds items (first + len / 2 + 1) (len - len / 2 - 1) val
  Holds-above first len x pos read below = (
    λ (i, lo, hi, e). elim (dec_lt (first + len / 2) i) [
      | yes h ↦ (i, omega arith, omega arith, e)
      | no h ↦ absurd (ground (arith, sorted i (first + len / 2) val x (omega arith) e read))
    ],
    λ (i, lo, hi, e). (i, omega arith, omega arith, e),
  )

  Holds-below :
      (first len : ℕ) (x : ℤ)
      → 0 < len
      → at items (first + len / 2) ≡ ok x
      → ltb_ℤ x val ≡ false
      → eqb_ℤ x val ≡ false
      → Holds items first len val ↔ Holds items first (len / 2) val
  Holds-below first len x pos read above miss = (
    λ (i, lo, hi, e). elim (dec_lt i (first + len / 2)) [
      | yes h ↦ (i, omega arith, omega arith, e)
      | no h ↦ absurd (ground (arith, sorted (first + len / 2) i x val (omega arith) read e))
    ],
    λ (i, lo, hi, e). (i, omega arith, omega arith, e),
  )

  Decides-iff : {P Q : Type 0} (b : Bool) → P ↔ Q → Decides b Q → Decides b P
  Decides-iff true e q = e.1 q
  Decides-iff false e q = λ p. q (e.0 p)

  loop_Decides :
      (fuel first len : ℕ)
      → len < fuel
      → first + len ≤ length items
      → Returns (vanilla_loop fuel items first len val) λ b. Decides b (Holds items first len val)
  loop_Decides zero first len enough fits = absurd (omega arith)
  loop_Decides (suc fuel) first zero enough fits =
      (false, vanilla_loop-zero fuel items first val, λ (i, lo, hi, e). omega arith)
  loop_Decides (suc fuel) first (suc n) enough fits =
      let len = suc n in
      let (x, read) = at-total items (first + len / 2) (omega arith) in
      let round = vanilla_round fuel items first len val x (omega arith) read in
      elim (Bool-cases (eqb_ℤ x val)) [
        | inl hit ↦ (
          true,
          rw hit at round,
          (
            first + len / 2,
            omega arith,
            omega arith,
            read ∙ ap (λ (y : ℤ). ok y) ((eqb_ℤ_iff x val).0 hit),
          ),
        )
        | inr miss ↦ elim (Bool-cases (ltb_ℤ x val)) [
          | inl below ↦
              let (b, run, d) =
                loop_Decides fuel (first + len / 2 + 1) (len - len / 2 - 1) (omega arith)
                  (omega arith) in
              (
                b,
                rw (miss, below, run) at round,
                Decides-iff b (Holds-above first len x (omega arith) read below) d,
              )
          | inr above ↦
              let (b, run, d) = loop_Decides fuel first (len / 2) (omega arith) (omega arith) in
              (
                b,
                rw (miss, above, run) at round,
                Decides-iff b (Holds-below first len x (omega arith) read above miss) d,
              )
        ]
      ]

  -- On a sorted array the plain search ends without a fault, and answers true exactly if the value
  -- stands at some position.
  pub vanilla_binary_search-Decides :
      Returns (vanilla_binary_search items val) λ b. Decides b ((i : ℕ) × (at items i ≡ ok val))
  unfolding vanilla_binary_search
  vanilla_binary_search-Decides =
      let (b, run, d) =
        loop_Decides (suc (length items)) 0 (length items) (omega arith) (omega arith) in
      (
        b,
        run,
        Decides-iff b
            (λ (i, e). (i, omega arith, omega (arith, at-lt items i e), e), λ (i, _, _, e). (i, e))
            d,
      )
