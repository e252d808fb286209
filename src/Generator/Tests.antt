-- ===== src/Generator/Tests.antt =====
-- Generators: test data, runs and the theorems at them.
use coroutines.Base.{
  ℕ, zero, suc, ◌≡◌, refl, false, none, some, [], ◌∷◌, ok, err, wild_deref, ◌>>=◌, ◌==◌, arith,
}
use coroutines.Generator.Core.{Turn, yields, throws, new_coroutine, begin, loop, range_for}
use coroutines.Generator.Range.{
  Yields, fails, more, yet, further, at_frame, finished, range_for-Yields, range_for-Reaches,
  range_for_again,
}

-- A body that counts down and throws at the end.
abbrev counts_down : ℕ → Turn ℕ ℕ ℕ
counts_down zero = throws 99
counts_down (suc n) = yields (suc n) n

-- A body without an end.
abbrev counts_up : ℕ → Turn ℕ ℕ ℕ
counts_up n = yields n (suc n)

two-Yields : Yields counts_down 2 (2 ∷ 1 ∷ []) (some 99)
two-Yields = more refl (more refl (fails refl))

range_for-Yields_example :
    range_for counts_down 3 (λ _. false) (some (new_coroutine 2))
    ≡ ok (2 ∷ 1 ∷ [], some 99, some (finished counts_down (some 1) (some 99)))
range_for-Yields_example =
    range_for-Yields counts_down 3 2 (2 ∷ 1 ∷ []) (some 99) two-Yields (omega arith)

range_for-Reaches_example :
    range_for counts_up 3 (λ v. v == 7) (some (new_coroutine 6))
    ≡ ok (6 ∷ 7 ∷ [], none, some (at_frame counts_up 8 (some 7)))
range_for-Reaches_example =
    range_for-Reaches counts_up 3 (λ v. v == 7) 6 8 (6 ∷ []) 7 (further refl (yet refl)) (refl, tt)
      refl (omega arith)

range_for_again_example :
    ((do
      (g, thrown) ← begin counts_down (some (new_coroutine 2))
      range_for counts_down 3 (λ _. false) g)
      ≡ ok (1 ∷ [], some 99, some (finished counts_down (some 1) (some 99))))
    × (range_for counts_down 3 (λ _. false) (some (finished counts_down (some 1) (some 99)))
        ≡ err wild_deref)
range_for_again_example =
    range_for_again counts_down 3 (λ _. false) 2 2 (1 ∷ []) (some 99) two-Yields (omega arith)

empty_run : range_for counts_down 3 (λ _. false) none ≡ ok ([], none, none)
unfolding range_for begin loop
empty_run = refl
