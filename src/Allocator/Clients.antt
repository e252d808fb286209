-- ===== src/Allocator/Clients.antt =====
-- Owners of frames over the allocator of applications/map/recycling_allocator.hpp: what they hold
-- and what lies in the free list, along any history.
use coroutines.Base.{
  ℕ, ◌+◌, ◌≤◌, ◌<◌, ◌≡◌, refl, subst, subst₂, ap, Option, none, some, List, [], ◌∷◌, ◌++◌, true,
  leb, if◌then◌else◌, ◌==◌, arith,
}
use coroutines.Allocator.Recycling.{
  Block, Free, Allocator, Outcome, memory, bad_alloc, alloc, free, empty_allocator, Tcalloc,
  tc_alloc,
}

-- How often an address lies in a list of blocks.
abbrev pub times : ℕ → List Block → ℕ
times x [] = 0
times x (b ∷ bs) = (if b.address == x then 1 else 0) + times x bs

times-append : (x : ℕ) (xs bs : List Block) → times x (xs ++ bs) ≡ times x xs + times x bs
times-append x [] bs = omega arith
times-append x (a ∷ xs) bs = omega (arith, times-append x xs bs)

abbrev pub blocks : List Free → List Block
blocks [] = []
blocks (f ∷ fs) = f.block ∷ blocks fs

-- The allocator, and the blocks that its clients hold.
pub record System : Type 0 where
  pub allocator : Allocator
  pub held : List Block

-- A client takes or returns a frame of `n` bytes. `malloc` answers with an address that is
-- neither held nor in the free list.
pub data Step (n : ℕ) (s : System) : System → Type 0 where
  take :
      (answer : Option ℕ) (b : Block) (a : Allocator)
      → ((x : ℕ) → answer ≡ some x → times x (blocks s.allocator.root) + times x s.held ≡ 0)
      → alloc answer n s.allocator ≡ (memory b, a)
      → Step n s (record { allocator = a; held = b ∷ s.held })
  give :
      (before after : List Block) (b : Block)
      → s.held ≡ before ++ b ∷ after
      → Step n s (record { allocator = free b n s.allocator; held = before ++ after })

pub data Reach (n : ℕ) : System → Type 0 where
  start : Reach n (record { allocator = empty_allocator; held = [] })
  later : {s t : System} → Reach n s → Step n s t → Reach n t

abbrev pub AllHeld : ℕ → List Block → Type 0
AllHeld n [] = Unit {0}
AllHeld n (b ∷ bs) = (b.bytes ≡ n) × AllHeld n bs

abbrev AllFree : ℕ → List Free → Type 0
AllFree n [] = Unit {0}
AllFree n (f ∷ fs) = (f.size ≡ n) × (f.block.bytes ≡ n) × AllFree n fs

-- Every block has the one size, and lies in one place.
pub record IsSound (n : ℕ) (s : System) : Type 0 where
  pub held_fits : AllHeld n s.held
  pub free_fits : AllFree n s.allocator.root
  pub once : (x : ℕ) → times x (blocks s.allocator.root) + times x s.held ≤ 1

AllHeld-append : (n : ℕ) (xs bs : List Block) → AllHeld n xs → AllHeld n bs → AllHeld n (xs ++ bs)
AllHeld-append n [] bs p q = q
AllHeld-append n (a ∷ xs) bs p q = (p.0, AllHeld-append n xs bs p.1 q)

AllHeld-split :
    (n : ℕ) (xs : List Block) (b : Block) (bs : List Block)
    → AllHeld n (xs ++ b ∷ bs)
    → AllHeld n xs × (b.bytes ≡ n) × AllHeld n bs
AllHeld-split n [] b bs p = (tt, p.0, p.1)
AllHeld-split n (a ∷ xs) b bs p = let (q, e, r) = AllHeld-split n xs b bs p.1 in ((p.0, q), e, r)

-- What an outcome equation says of the block and of the allocator.
IsSound-outcome :
    {n : ℕ} {held : List Block} (b b' : Block) (a a' : Allocator)
    → ◌≡◌ {A = Outcome × Allocator} (memory b, a) (memory b', a')
    → IsSound n (record { allocator = a; held = b ∷ held })
    → IsSound n (record { allocator = a'; held = b' ∷ held })
IsSound-outcome {n} {held} b b' a a' e v =
    let same : memory b ≡ memory b' = ap (λ (p : Outcome × Allocator). p.0) e in
    let same_block : b ≡ b' = cc same in
    let same_rest : a ≡ a' = ap (λ (p : Outcome × Allocator). p.1) e in
    subst₂ (λ x y. IsSound n (record { allocator = y; held = x ∷ held })) same_block same_rest v

take-IsSound :
    (n : ℕ) (root : List Free) (held : List Block) (answer : Option ℕ) (b : Block) (a : Allocator)
    → ((x : ℕ) → answer ≡ some x → times x (blocks root) + times x held ≡ 0)
    → alloc answer n (record { root = root }) ≡ (memory b, a)
    → IsSound n (record { allocator = record { root = root }; held = held })
    → IsSound n (record { allocator = a; held = b ∷ held })
unfolding alloc
take-IsSound n [] held none b a fresh e v = cc
take-IsSound n [] held (some x) b a fresh e v = IsSound-outcome _ b _ a e (record {
  held_fits = (refl, v.held_fits);
  free_fits = tt;
  once = λ y. ground (arith, v.once y, fresh x refl);
})
take-IsSound n (f ∷ fs) held answer b a fresh e v =
    let fits : leb f.size n ≡ true = ground arith in
    IsSound-outcome f.block b (record { root = fs }) a (rw fits at e)
      (record {
        held_fits = (v.free_fits.1, v.held_fits);
        free_fits = v.free_fits.2;
        once = λ y. omega (arith, v.once y);
      })

Step-IsSound : {n : ℕ} {s t : System} → Step n s t → IsSound n s → IsSound n t
unfolding free
Step-IsSound {n} {s} (take answer b a fresh e) v =
    take-IsSound n s.allocator.root s.held answer b a fresh e v
Step-IsSound {n} {s} (give before after b e) v =
    let (p, fits, q) = AllHeld-split n before b after (subst (AllHeld n) e v.held_fits) in
    record {
      held_fits = AllHeld-append n before after p q;
      free_fits = (refl, fits, v.free_fits);
      once = λ x. omega (
        arith,
        v.once x,
        ap (times x) e,
        times-append x before (b ∷ after),
        times-append x before after,
      );
    }

Reach-IsSound : {n : ℕ} {s : System} → Reach n s → IsSound n s
Reach-IsSound start = record { held_fits = tt; free_fits = tt; once = λ x. omega arith }
Reach-IsSound (later r st) = Step-IsSound st (Reach-IsSound r)

-- Along any history of an allocator whose clients take and return frames of one size, with
-- `malloc` answering an address that is in no use, each held block has that size, and no address
-- is held or free twice.
pub frames_disjoint :
    {n : ℕ} {s : System}
    → Reach n s
    → AllHeld n s.held × ((x : ℕ) → times x (blocks s.allocator.root) + times x s.held ≤ 1)
frames_disjoint r = ((Reach-IsSound r).held_fits, (Reach-IsSound r).once)

-- A request for `n` bytes right after a block was returned hands out that block, of `b.bytes`
-- bytes, whenever it is at most `n` bytes large, so it can be too small; a larger block is passed
-- over, and with `malloc` failing the request throws while the block lies free.
pub alloc-free :
    (answer : Option ℕ) (n : ℕ) (b : Block) (a : Allocator)
    → (b.bytes ≤ n → alloc answer n (free b b.bytes a) ≡ (memory b, a))
      × (n < b.bytes → alloc none n (free b b.bytes a) ≡ (bad_alloc, free b b.bytes a))
unfolding alloc free
alloc-free answer n b a = (λ h. ground arith, λ h. ground arith)

-- The pointer that an outcome stands for, null for an exception.
abbrev pub pointer : Outcome → Option Block
pointer (memory b) = some b
pointer bad_alloc = none

tc_alloc_cases :
    (answer : Option ℕ) (n : ℕ) (root : List Free) (t : Tcalloc)
    → t.base ≡ record { root = root }
    → (pointer (alloc answer n t.base).0 ≡ (tc_alloc answer n t).0)
      × ((alloc answer n t.base).1 ≡ (tc_alloc answer n t).1.base)
unfolding alloc tc_alloc
tc_alloc_cases none n [] t e = (ground (arith, e), ground (arith, e))
tc_alloc_cases (some x) n [] t e = (ground (arith, e), ground (arith, e))
tc_alloc_cases none n (f ∷ fs) t e = (ground (arith, e), ground (arith, e))
tc_alloc_cases (some x) n (f ∷ fs) t e = (ground (arith, e), ground (arith, e))

-- From one free list and with one answer of `malloc`, the allocator of the binary search and the
-- recycling allocator hand out the same block and leave the same free list; a null pointer stands
-- for the exception.
pub tc_alloc-alloc :
    (answer : Option ℕ) (n : ℕ) (t : Tcalloc)
    → (pointer (alloc answer n t.base).0 ≡ (tc_alloc answer n t).0)
      × ((alloc answer n t.base).1 ≡ (tc_alloc answer n t).1.base)
tc_alloc-alloc answer n t = tc_alloc_cases answer n t.base.root t refl
