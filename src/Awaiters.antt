-- ===== src/Awaiters.antt =====
-- The intrusive lists of awaiters that the primitives share: an atomic word heads the list, and
-- each awaiter holds a pointer to the next one.
use coroutines.Base.{
  ==_iff, Bool, Bool-cases, List, [], ap, arith, false, if◌then◌else◌, inl, inr, refl, subst, sym,
  true, ℕ, ◌++◌, ◌+◌, ◌==◌, ◌∷◌, ◌≡◌,
}

-- A word that holds a null pointer, a value that no awaiter has as its address, or the address of an
-- awaiter.
pub data Pointer : Type 0 where
  null marker : Pointer
  awaiter : ℕ → Pointer

abbrev pub is_marker : Pointer → Bool
is_marker null = false
is_marker marker = true
is_marker (awaiter w) = false

-- The comparison of a compare-and-exchange.
abbrev pub same : Pointer → Pointer → Bool
same null null = true
same null marker = false
same null (awaiter w) = false
same marker null = false
same marker marker = true
same marker (awaiter w) = false
same (awaiter v) null = false
same (awaiter v) marker = false
same (awaiter v) (awaiter w) = v == w

pub same-≡ : (p q : Pointer) → same p q ≡ true → p ≡ q
same-≡ null null e = refl
same-≡ null marker e = cc
same-≡ null (awaiter w) e = cc
same-≡ marker null e = cc
same-≡ marker marker e = refl
same-≡ marker (awaiter w) e = cc
same-≡ (awaiter v) null e = cc
same-≡ (awaiter v) marker e = cc
same-≡ (awaiter v) (awaiter w) e = ap awaiter ((==_iff v w).0 e)

-- A write to one address.
abbrev pub update_at {ℓ} : {A : Type ℓ} → (ℕ → A) → ℕ → A → ℕ → A
update_at f w x v = if v == w then x else f v

-- How a write changes a weight, counted at one address.
pub weight-update_at {ℓ} :
    {A : Type ℓ} (weight : A → ℕ) (f : ℕ → A) (w : ℕ) (p : A) (x : ℕ)
    → weight (update_at f w p x) + (if w == x then weight (f w) else 0)
      ≡ weight (f x) + (if w == x then weight p else 0)
weight-update_at weight f w p x = elim (Bool-cases (w == x)) [
  | inl hit ↦
      let e : x ≡ w = sym ((==_iff w x).0 hit) in
      let hit' : (x == w) ≡ true = ground (arith, hit) in rw (hit, hit', e) (omega arith)
  | inr miss ↦ let miss' : (x == w) ≡ false = ground (arith, miss) in rw (miss, miss') (omega arith)
]

abbrev pub occurrences : ℕ → List ℕ → ℕ
occurrences w [] = 0
occurrences w (v ∷ ws) = (if v == w then 1 else 0) + occurrences w ws

-- The list that a pointer heads, through the awaiters' `next_awaiter`.
abbrev pub Chain : (ℕ → Pointer) → Pointer → List ℕ → Type 0
Chain next p [] = p ≡ null
Chain next p (w ∷ ws) = (p ≡ awaiter w) × Chain next (next w) ws

-- A write to an awaiter outside a list leaves the list as it is.
pub Chain-update_at :
    (next : ℕ → Pointer) (w : ℕ) (q p : Pointer) (ws : List ℕ)
    → occurrences w ws ≡ 0
    → Chain next p ws
    → Chain (update_at next w q) p ws
Chain-update_at next w q p [] out c = c
Chain-update_at next w q p (v ∷ ws) out c =
    let miss : (v == w) ≡ false = ground arith in
    (c.0, rw miss (Chain-update_at next w q (next v) ws (omega (arith, out)) c.1))

pub Chain-null :
    (next : ℕ → Pointer) (p : Pointer) (ws : List ℕ) (w : ℕ)
    → p ≡ null
    → Chain next p ws
    → occurrences w ws ≡ 0
Chain-null next p [] w e c = refl
Chain-null next p (v ∷ ws) w e c = cc (e, c.0)

-- The head of a list that is not empty is on it, and the rest follows.
pub Chain-awaiter :
    (next : ℕ → Pointer) (w : ℕ) (ws : List ℕ)
    → Chain next (awaiter w) ws
    → (rest : List ℕ) × (ws ≡ w ∷ rest) × Chain next (next w) rest
Chain-awaiter next w [] c = cc c
Chain-awaiter next w (v ∷ ws) c =
    let e : v ≡ w = cc (c.0) in (ws, ap (λ x. x ∷ ws) e, subst (λ x. Chain next (next x) ws) e c.1)

-- The lists that several pointers head.
pub data Chains (next : ℕ → Pointer) : List Pointer → List (List ℕ) → Type 0 where
  no_chains : Chains next [] []
  one_more :
      {p : Pointer} {ws : List ℕ} {ps : List Pointer} {wss : List (List ℕ)}
      → Chain next p ws
      → Chains next ps wss
      → Chains next (p ∷ ps) (ws ∷ wss)

abbrev pub all_occurrences : ℕ → List (List ℕ) → ℕ
all_occurrences w [] = 0
all_occurrences w (ws ∷ wss) = occurrences w ws + all_occurrences w wss

pub Chains-update_at :
    {next : ℕ → Pointer} {ps : List Pointer} {wss : List (List ℕ)} (w : ℕ) (q : Pointer)
    → all_occurrences w wss ≡ 0
    → Chains next ps wss
    → Chains (update_at next w q) ps wss
Chains-update_at w q out no_chains = no_chains
Chains-update_at {next} w q out (one_more {p} {ws} c cs) =
    one_more (Chain-update_at next w q p ws (omega (arith, out)) c)
      (Chains-update_at w q (omega (arith, out)) cs)

-- One of the pointers moves on to the next awaiter.
pub Chains-next :
    {next : ℕ → Pointer} (before : List Pointer) (w : ℕ) (after : List Pointer)
    {wss : List (List ℕ)}
    → Chains next (before ++ awaiter w ∷ after) wss
    → (rest : List (List ℕ)) × Chains next (before ++ next w ∷ after) rest
      × ((v : ℕ) → all_occurrences v wss ≡ (if w == v then 1 else 0) + all_occurrences v rest)
Chains-next {next} [] w after (one_more {p} {ws} {ps} {wss} c cs) =
    let (rest, e, c') = Chain-awaiter next w ws c in
    (rest ∷ wss, one_more c' cs, λ v. omega (arith, ap (occurrences v) e))
Chains-next (p ∷ before) w after (one_more {ws = ws} c cs) =
    let (rest, cs', same_rest) = Chains-next before w after cs in
    (ws ∷ rest, one_more c cs', λ v. omega (arith, same_rest v))

abbrev pub AllNull : List Pointer → Type 0
AllNull [] = Unit {0}
AllNull (p ∷ ps) = (p ≡ null) × AllNull ps

pub Chains-AllNull :
    {next : ℕ → Pointer} {ps : List Pointer} {wss : List (List ℕ)}
    → AllNull ps
    → Chains next ps wss
    → (w : ℕ) → all_occurrences w wss ≡ 0
Chains-AllNull nulls no_chains w = refl
Chains-AllNull {next} nulls (one_more {p} {ws} c cs) w =
    omega (arith, Chain-null next p ws w nulls.0 c, Chains-AllNull nulls.1 cs w)
