-- ===== src/Generator/Range.antt =====
-- libcoro/include/libcoro/generator.hpp: what a loop over a generator sees.
use coroutines.Base.{
  ℕ, zero, suc, ◌<◌, ◌≡◌, refl, sym, ap, ◌∙◌, Bool, true, false, Option, none, some, List, [], ◌∷◌,
  ◌++◌, Result, ok, err, wild_deref, ◌>>=◌, length, arith,
}
use coroutines.Generator.Core.{
  Turn, yields, returns, throws, suspended, final, Coroutine, new_coroutine, resume, increment,
  begin, loop, range_for,
}

module _ {F T E : Type 0} (body : F → Turn F T E) where
  -- From the frame on, the body yields these values and ends, by an exception or without.
  pub data Yields : F → List T → Option E → Type 0 where
    ends : {f : F} → body f ≡ returns → Yields f [] none
    fails : {f : F} {e : E} → body f ≡ throws e → Yields f [] (some e)
    more :
        {f f' : F} {v : T} {vs : List T} {e : Option E}
        → body f ≡ yields v f'
        → Yields f' vs e
        → Yields f (v ∷ vs) e

  -- The body yields these values and then this one, and is suspended in the frame.
  pub data Reaches : F → List T → T → F → Type 0 where
    yet : {f f' : F} {w : T} → body f ≡ yields w f' → Reaches f [] w f'
    further :
        {f f' f'' : F} {v w : T} {vs : List T}
        → body f ≡ yields v f'
        → Reaches f' vs w f''
        → Reaches f (v ∷ vs) w f''

  -- The coroutine suspended in a frame, and at its end.
  pub at_frame : F → Option T → Coroutine F T E
  at_frame f v = record { position = suspended f; m_value = v; m_exception = none }

  pub finished : Option T → Option E → Coroutine F T E
  finished v e = record { position = final; m_value = v; m_exception = e }

  abbrev pub last_of : Option T → List T → Option T
  last_of v [] = v
  last_of v (w ∷ ws) = last_of (some w) ws

  increment-returns :
      (f : F) (v : Option T)
      → body f ≡ returns
      → increment body (some (at_frame f v)) ≡ ok (some (finished v none), none)
  unfolding increment resume at_frame finished
  increment-returns f v b = rw b

  increment-throws :
      (f : F) (v : Option T) (e : E)
      → body f ≡ throws e
      → increment body (some (at_frame f v)) ≡ ok (some (finished v (some e)), some e)
  unfolding increment resume at_frame finished
  increment-throws f v e b = rw b

  increment-yields :
      (f f' : F) (v : Option T) (w : T)
      → body f ≡ yields w f'
      → increment body (some (at_frame f v)) ≡ ok (some (at_frame f' (some w)), none)
  unfolding increment resume at_frame
  increment-yields f f' v w b = rw b

  -- The rest of a loop, from the next `++`.
  onwards : ℕ → (T → Bool) → F → Option T → Result (List T × Option E × Option (Coroutine F T E))
  onwards fuel breaks f v = do
    start ← increment body (some (at_frame f v))
    loop body fuel breaks start

  bind-next :
      {A B : Type 0} (m : Result A) (k : A → Result B) {C : Type 0} (h : B → C) (b : B)
      → (m >>= k) ≡ ok b
      → (m >>= λ a. k a >>= λ r. ok (h r)) ≡ ok (h b)
  bind-next (ok a) k h b e = rw e
  bind-next (err fault) k h b e = cc e

  onwards-goes :
      (fuel : ℕ) (breaks : T → Bool) (f f' : F) (v : Option T) (w : T) (vs : List T) (e : Option E)
      (g : Option (Coroutine F T E))
      → body f ≡ yields w f'
      → breaks w ≡ false
      → onwards fuel breaks f' (some w) ≡ ok (vs, e, g)
      → onwards (suc fuel) breaks f v ≡ ok (w ∷ vs, e, g)
  unfolding onwards loop at_frame
  onwards-goes fuel breaks f f' v w vs e g b on rest =
      rw (increment-yields f f' v w b, loop, on)
        (bind-next (increment body (some (at_frame f' (some w)))) (loop body fuel breaks)
          (λ (r : List T × Option E × Option (Coroutine F T E)). (w ∷ r.0, r.1, r.2)) (vs, e, g)
          rest)

  onwards-breaks :
      (fuel : ℕ) (breaks : T → Bool) (f f' : F) (v : Option T) (w : T)
      → body f ≡ yields w f'
      → breaks w ≡ true
      → onwards (suc fuel) breaks f v ≡ ok (w ∷ [], none, some (at_frame f' (some w)))
  unfolding onwards loop at_frame
  onwards-breaks fuel breaks f f' v w b on = rw (increment-yields f f' v w b, loop, on)

  onwards-Yields :
      (fuel : ℕ) (f : F) (v : Option T) (vs : List T) (e : Option E)
      → Yields f vs e
      → length vs < fuel
      → onwards fuel (λ _. false) f v ≡ ok (vs, e, some (finished (last_of v vs) e))
  unfolding onwards loop finished
  onwards-Yields zero f v vs e y enough = absurd (omega (arith, enough))
  onwards-Yields (suc fuel) f v [] none (ends b) enough = rw (increment-returns f v b)
  onwards-Yields (suc fuel) f v [] (some e) (fails b) enough = rw (increment-throws f v e b)
  onwards-Yields (suc fuel) f v (w ∷ vs) e (more {f' = f'} b rest) enough =
      onwards-goes fuel (λ _. false) f f' v w vs e _ b refl
        (onwards-Yields fuel f' (some w) vs e rest (omega (arith, enough)))

  -- None of the values stops the loop.
  abbrev pub Passes : (T → Bool) → List T → Type 0
  Passes breaks [] = Unit {0}
  Passes breaks (v ∷ vs) = (breaks v ≡ false) × Passes breaks vs

  onwards-Reaches :
      (fuel : ℕ) (breaks : T → Bool) (f f' : F) (v : Option T) (vs : List T) (w : T)
      → Reaches f vs w f'
      → Passes breaks vs
      → breaks w ≡ true
      → length vs < fuel
      → onwards fuel breaks f v ≡ ok (vs ++ w ∷ [], none, some (at_frame f' (some w)))
  onwards-Reaches zero breaks f f' v vs w r passes stops enough = absurd (omega (arith, enough))
  onwards-Reaches (suc fuel) breaks f f' v [] w (yet b) passes stops enough =
      onwards-breaks fuel breaks f f' v w b stops
  onwards-Reaches (suc fuel) breaks f f' v (u ∷ vs) w (further {f' = f''} b r) passes stops enough =
      onwards-goes fuel breaks f f'' v u (vs ++ w ∷ []) none _ b passes.0
        (onwards-Reaches fuel breaks f'' f' (some u) vs w r passes.1 stops (omega (arith, enough)))

  range_for-onwards :
      (fuel : ℕ) (breaks : T → Bool) (f : F) (v : Option T)
      → range_for body fuel breaks (some (at_frame f v)) ≡ onwards fuel breaks f v
  unfolding range_for begin onwards increment
  range_for-onwards fuel breaks f v = refl

  new-at_frame : (f : F) → at_frame f none ≡ new_coroutine f
  unfolding at_frame
  new-at_frame f = refl

  -- A loop over a new generator whose body yields a list of values and then ends or throws, with
  -- more fuel than values, sees exactly these values in their order, then ends with that exception
  -- or none, and leaves the coroutine at its end.
  pub range_for-Yields :
      (fuel : ℕ) (f : F) (vs : List T) (e : Option E)
      → Yields f vs e
      → length vs < fuel
      → range_for body fuel (λ _. false) (some (new_coroutine f))
        ≡ ok (vs, e, some (finished (last_of none vs) e))
  range_for-Yields fuel f vs e y enough =
      ap (λ c. range_for body fuel (λ _. false) (some c)) (sym (new-at_frame f))
      ∙ range_for-onwards fuel (λ _. false) f none
      ∙ onwards-Yields fuel f none vs e y enough

  -- A loop over a new generator that breaks at a value, and at none before it, runs the body up to
  -- that value and no further, with more fuel than values before it: it sees the values up to that
  -- one, no exception, and the coroutine is suspended where it yielded it, whatever the body does
  -- after.
  pub range_for-Reaches :
      (fuel : ℕ) (breaks : T → Bool) (f f' : F) (vs : List T) (w : T)
      → Reaches f vs w f'
      → Passes breaks vs
      → breaks w ≡ true
      → length vs < fuel
      → range_for body fuel breaks (some (new_coroutine f))
        ≡ ok (vs ++ w ∷ [], none, some (at_frame f' (some w)))
  range_for-Reaches fuel breaks f f' vs w r passes stops enough =
      ap (λ c. range_for body fuel breaks (some c)) (sym (new-at_frame f))
      ∙ range_for-onwards fuel breaks f none
      ∙ onwards-Reaches fuel breaks f f' none vs w r passes stops enough

  -- For a new generator whose body yields a value, then others, and ends or throws, with more fuel
  -- than the others: a loop after another call of `begin` sees all values but the first, and a
  -- loop over the generator that is at its end resumes a coroutine that is done.
  pub range_for_again :
      (fuel : ℕ) (breaks : T → Bool) (f : F) (v : T) (vs : List T) (e : Option E)
      → Yields f (v ∷ vs) e
      → length vs < fuel
      → ((do (g, thrown) ← begin body (some (new_coroutine f)); range_for body fuel (λ _. false) g)
          ≡ ok (vs, e, some (finished (last_of (some v) vs) e)))
        × (range_for body fuel breaks (some (finished (last_of (some v) vs) e)) ≡ err wild_deref)
  unfolding range_for begin resume finished at_frame
  range_for_again fuel breaks f v vs e (more {f' = f'} b y) enough = (
    rw b (
        range_for-onwards fuel (λ _. false) f' (some v)
        ∙ onwards-Yields fuel f' (some v) vs e y enough),
    refl,
  )
