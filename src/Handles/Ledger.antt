-- ===== src/Handles/Ledger.antt =====
-- Where the handles of libcoro's owners are: counted in the objects and among the closed ones.
use coroutines.Base.{
  ℕ, zero, suc, ◌+◌, ◌≤◌, ◌≡◌, ◌≢◌, ap, ◌∙◌, subst, true, false, Bool-cases, Option, none, some,
  List, [], ◌∷◌, ◌++◌, ok, >>=-eq-ok, at, set, at-set_self, at-set_ne, at-lt, ◌==◌, ==_iff, inl,
  inr, if◌then◌else◌, arith,
}
use coroutines.Awaiters.{occurrences}
use coroutines.Handles.Core.{Objects, alive, get, store, close}

abbrev pub one : ℕ → ℕ → ℕ
one h v = if v == h then 1 else 0

abbrev pub holds : ℕ → Option ℕ → ℕ
holds h none = 0
holds h (some v) = one h v

abbrev pub owned : ℕ → List (Option ℕ) → ℕ
owned h [] = 0
owned h (o ∷ os) = holds h o + owned h os

owned-set :
    (h : ℕ) (os : List (Option ℕ)) (i : ℕ) (a b : Option ℕ)
    → at os i ≡ ok a
    → owned h (set os i b) + holds h a ≡ owned h os + holds h b
owned-set h [] i a b e = cc e
owned-set h (o ∷ os) zero a b e = let same : o ≡ a = cc e in omega (arith, ap (holds h) same)
owned-set h (o ∷ os) (suc i) a b e = omega (arith, owned-set h os i a b e)

pub owned-append :
    (h : ℕ) (os : List (Option ℕ)) (o : Option ℕ) → owned h (os ++ o ∷ []) ≡ owned h os + holds h o
owned-append h [] o = omega arith
owned-append h (p ∷ os) o = omega (arith, owned-append h os o)

at-get : (i : ℕ) (s : Objects) {v : ℕ} → get i s ≡ ok v → at s.values i ≡ ok (some v)
unfolding get
at-get i s {v} e =
    let (o, there, a) = >>=-eq-ok (at s.values i) alive e in there ∙ ap ok (alive-some o v a)
  where
    alive-some : (o : Option ℕ) (v : ℕ) → alive o ≡ ok v → o ≡ some v
    alive-some none v e = cc e
    alive-some (some w) v e = cc e

-- A write to an object.
pub store-owned :
    (h i : ℕ) (s : Objects) (v : ℕ) (o : Option ℕ)
    → get i s ≡ ok v
    → owned h (store i o s).values + one h v ≡ owned h s.values + holds h o
store-owned h i s v o e = owned-set h s.values i (some v) o (at-get i s e)

-- The handle of an object is owned.
pub get-owned : (i : ℕ) (s : Objects) (v : ℕ) → get i s ≡ ok v → 1 ≤ owned v s.values
get-owned i s v e =
    let here : (v == v) ≡ true = ground arith in
    let one_here : one v v ≡ 1 = rw here in omega (arith, store-owned v i s v none e, one_here)

pub close-closed :
    (invalid h v : ℕ) (s : Objects)
    → h ≢ invalid
    → occurrences h (close invalid v s).closed ≡ occurrences h s.closed + one h v
close-closed invalid h v s valid = elim (Bool-cases (v == invalid)) [
  | inl hit ↦
      let e : v ≡ invalid = (==_iff v invalid).0 hit in
      let miss : (v == h) ≡ false = ground (arith, valid, e) in rw (hit, miss) (omega arith)
  | inr miss ↦ rw miss (omega arith)
]

pub close-values : (invalid v : ℕ) (s : Objects) → (close invalid v s).values ≡ s.values
close-values invalid v s = elim (Bool-cases (v == invalid)) [
  | inl hit ↦ rw hit
  | inr miss ↦ rw miss
]

alive-at : (i : ℕ) (s : Objects) {v : ℕ} → at s.values i ≡ ok (some v) → get i s ≡ ok v
unfolding get
alive-at i s e = rw e

-- What an object holds after a write to another, or to itself.
pub get-store :
    (i j : ℕ) (s : Objects) (a b : ℕ)
    → get i s ≡ ok a
    → get j s ≡ ok b
    → get j (store i (some b) s) ≡ ok b
get-store i j s a b e e' = elim (Bool-cases (i == j)) [
  | inl hit ↦
      let same : i ≡ j = (==_iff i j).0 hit in
      subst (λ k. get k (store i (some b) s) ≡ ok b) same
        (alive-at i (store i (some b) s)
          (at-set_self s.values i (some b) (at-lt s.values i (at-get i s e))))
  | inr miss ↦
      let other : i ≢ j = λ p. ground (arith, p, miss) in
      alive-at j (store i (some b) s) (at-set_ne s.values i j (some b) other ∙ at-get j s e')
]

pub get-close : (invalid v i : ℕ) (s : Objects) → get i (close invalid v s) ≡ get i s
unfolding get
get-close invalid v i s = elim (Bool-cases (v == invalid)) [ inl hit ↦ rw hit | inr miss ↦ rw miss ]
