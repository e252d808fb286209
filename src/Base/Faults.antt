-- ===== src/Base/Faults.antt =====
-- What a run of the code can end in besides a value: undefined behaviour that the model makes
-- visible, and the exceptions that the code throws.
use Prim.Native.Nat.{ℕ, zero, suc, ◌<◌}
use mathlib.Core.Path.{◌≡◌, refl}
use mathlib.Core.List.{List, [], ◌∷◌}
use mathlib.Core.Logic.{◌≢◌}
use native.Mathlib.Omega.{arith}
use coroutines.Base.Lists.{length, set}

pub data Fault : Type 0 where
  null_deref wild_deref out_of_bounds runtime_error assertion : Fault
  -- An object is read or assigned to after its lifetime.
  dead_object : Fault
  -- No fault of the code: a loop of the model ran out of fuel.
  no_fuel : Fault

pub data Result {ℓ} (A : Type ℓ) : Type ℓ where
  ok : A → Result A
  err : Fault → Result A

-- The run ends normally, with a value that satisfies `P`.
abbrev pub Returns {ℓ κ} : {A : Type ℓ} → Result A → (A → Type κ) → Type (ℓ ⊔ κ)
Returns {A} run P = (a : A) × (run ≡ ok a) × P a

-- A fault ends the run.
infixl 5 ◌>>=◌
abbrev pub ◌>>=◌ {κ ℓ} : {B : Type κ} {A : Type ℓ} → Result B → (B → Result A) → Result A
err fault >>= rest = err fault
ok value >>= rest = rest value

-- A run that ends normally did so at its first part.
pub >>=-eq-ok {κ ℓ} :
    {B : Type κ} {A : Type ℓ} (m : Result B) (f : B → Result A) {a : A}
    → (m >>= f) ≡ ok a
    → (b : B) × (m ≡ ok b) × (f b ≡ ok a)
>>=-eq-ok (ok b) f e = (b, refl, e)
>>=-eq-ok (err fault) f e = cc

-- `array[i]`
abbrev pub at {ℓ} : {A : Type ℓ} → List A → ℕ → Result A
at [] i = err out_of_bounds
at (x ∷ xs) zero = ok x
at (x ∷ xs) (suc i) = at xs i

module _ {ℓ} {A : Type ℓ} where
  pub at-total : (xs : List A) (i : ℕ) → i < length xs → (a : A) × (at xs i ≡ ok a)
  at-total [] i h = absurd (omega arith)
  at-total (x ∷ xs) zero h = (x, refl)
  at-total (x ∷ xs) (suc i) h = at-total xs i (omega arith)

  pub at-set_self : (xs : List A) (i : ℕ) (v : A) → i < length xs → at (set xs i v) i ≡ ok v
  at-set_self [] i v h = absurd (omega arith)
  at-set_self (x ∷ xs) zero v h = refl
  at-set_self (x ∷ xs) (suc i) v h = at-set_self xs i v (omega arith)

  pub at-set_ne : (xs : List A) (i j : ℕ) (v : A) → i ≢ j → at (set xs i v) j ≡ at xs j
  at-set_ne [] i j v h = refl
  at-set_ne (x ∷ xs) zero zero v h = absurd (h refl)
  at-set_ne (x ∷ xs) zero (suc j) v h = refl
  at-set_ne (x ∷ xs) (suc i) zero v h = refl
  at-set_ne (x ∷ xs) (suc i) (suc j) v h = at-set_ne xs i j v (omega (arith, h))

  pub at-lt : (xs : List A) (i : ℕ) {a : A} → at xs i ≡ ok a → i < length xs
  at-lt [] i h = cc
  at-lt (x ∷ xs) zero h = omega arith
  at-lt (x ∷ xs) (suc i) h = omega (arith, at-lt xs i h)
