-- ===== src/Handles/Conserved.antt =====
-- libcoro/include/libcoro/win/unique_handle.hpp and nix/unique_fd.hpp along their histories: who has a
-- handle, and what is lost.
use coroutines.Base.{
  ℕ, ◌+◌, ◌≤◌, ◌<◌, ◌≡◌, ◌≢◌, subst, true, Bool-cases, ◌∷◌, ok, >>=-eq-ok, ◌==◌, ==_iff, inl, inr,
  arith,
}
use coroutines.Awaiters.{occurrences}
use coroutines.Handles.Core.{Objects, get, release, move_construct, move_assign, get_address_of}
use coroutines.Handles.Ledger.{one, owned}
use coroutines.Handles.Steps.{
  World, empty_world, IsFresh, Step, constructs, destructs, releases, resets, resets_same,
  move_constructs, move_assigns, move_assigns_fd, puts, writes, swaps, Reach, start, later,
}
use coroutines.Handles.Owned.{
  Moves, ok-eq, construct-Moves, destruct-Moves, put-Moves, release-exact, release-Moves,
  handed-Moves, reset-Moves, reset_same-Moves, writes-Moves, swap-Moves, move_assign_fd-Moves,
}

module _ (invalid : ℕ) where
  -- The value that `release` took out is in no object any more.
  released-IsFresh :
      (i v : ℕ) (s : Objects) {t : Objects}
      → release invalid i s ≡ ok (v, t)
      → (v ≢ invalid → owned v s.values ≤ 1)
      → IsFresh invalid v t
  released-IsFresh i v s e l = elim (Bool-cases (v == invalid)) [
    | inl hit ↦ inl ((==_iff v invalid).0 hit)
    | inr miss ↦
        let valid : v ≢ invalid = λ p. ground (arith, p, miss) in
        let here : (v == v) ≡ true = ground arith in
        let mine : one v v ≡ 1 = rw here in
        inr (omega (arith, (release-exact invalid v valid i v s e).0, l valid, mine))
  ]

  move_construct-Moves :
      (h i : ℕ) (s : Objects) {t : Objects} (valid : h ≢ invalid)
      → ((v : ℕ) → v ≢ invalid → owned v s.values ≤ 1)
      → move_construct invalid i s ≡ ok t
      → Moves invalid h valid 0 0 s t
  unfolding move_construct
  move_construct-Moves h i s valid l e =
      let ((v, s'), out, e') = >>=-eq-ok (release invalid i s) _ e in
      subst (Moves invalid h valid 0 0 s) (ok-eq e') (
        handed-Moves invalid h valid i v s out
          (construct-Moves invalid h valid v s' (released-IsFresh i v s out (l v))))

  move_assign-Moves :
      (h i j : ℕ) (s : Objects) {t : Objects} (valid : h ≢ invalid)
      → ((v : ℕ) → v ≢ invalid → owned v s.values ≤ 1)
      → move_assign invalid i j s ≡ ok t
      → Moves invalid h valid 0 0 s t
  unfolding move_assign
  move_assign-Moves h i j s valid l e =
      let ((v, s'), out, e') = >>=-eq-ok (release invalid j s) _ e in
      handed-Moves invalid h valid j v s out
        (reset-Moves invalid h valid i v s' (released-IsFresh j v s out (l v)) e')

  -- Each handle is owned once at most, and accounted for.
  record IsSound (w : World) : Type 0 where
    once : (h : ℕ) → h ≢ invalid → owned h w.objects.values ≤ 1
    kept :
        (h : ℕ)
        → h ≢ invalid
        → owned h w.objects.values
            + occurrences h w.objects.closed
            + occurrences h w.released
            + occurrences h w.overwritten
          ≡ occurrences h w.given

  moved-IsSound :
      {w : World} {t : Objects}
      → ((h : ℕ) (valid : h ≢ invalid) → Moves invalid h valid 0 0 w.objects t)
      → IsSound w
      → IsSound (record w { objects = t })
  moved-IsSound m v = record {
    once = λ h valid. (m h valid).once (v.once h valid);
    kept = λ h valid. omega (arith, (m h valid).total, v.kept h valid);
  }

  given-IsSound :
      {w : World} {t : Objects} (x : ℕ)
      → ((h : ℕ) (valid : h ≢ invalid) → Moves invalid h valid (one h x) 0 w.objects t)
      → IsSound w
      → IsSound (record w { objects = t; given = x ∷ w.given })
  given-IsSound x m v = record {
    once = λ h valid. (m h valid).once (v.once h valid);
    kept = λ h valid. omega (arith, (m h valid).total, v.kept h valid);
  }

  Step-IsSound : {w u : World} → Step invalid w u → IsSound w → IsSound u
  Step-IsSound {w} (constructs x f) v =
      given-IsSound x (λ h valid. construct-Moves invalid h valid x w.objects f) v
  Step-IsSound {w} (destructs i e) v =
      moved-IsSound (λ h valid. destruct-Moves invalid h valid i w.objects e) v
  Step-IsSound {w} (releases i x e) v = record {
    once = λ h valid. (release-Moves invalid h valid i x w.objects e).once (v.once h valid);
    kept = λ h valid.
        omega (arith, (release-Moves invalid h valid i x w.objects e).total, v.kept h valid);
  }
  Step-IsSound {w} (resets i x f e) v =
      given-IsSound x (λ h valid. reset-Moves invalid h valid i x w.objects f e) v
  Step-IsSound {w} (resets_same i x here e) v =
      moved-IsSound (λ h valid. reset_same-Moves invalid h valid i x w.objects here e) v
  Step-IsSound {w} (move_constructs i e) v =
      moved-IsSound (λ h valid. move_construct-Moves h i w.objects valid v.once e) v
  Step-IsSound {w} (move_assigns i j e) v =
      moved-IsSound (λ h valid. move_assign-Moves h i j w.objects valid v.once e) v
  Step-IsSound {w} (move_assigns_fd i j e) v =
      moved-IsSound (λ h valid. move_assign_fd-Moves invalid h valid i j w.objects e) v
  Step-IsSound {w} (puts i x f e) v =
      given-IsSound x (λ h valid. put-Moves invalid h valid i x w.objects f e) v
  Step-IsSound {w} (writes i x m f here e) v = record {
    once = λ h valid. (writes-Moves invalid h valid i x m w.objects f here e).once (v.once h valid);
    kept = λ h valid.
        omega
          (arith, (writes-Moves invalid h valid i x m w.objects f here e).total, v.kept h valid);
  }
  Step-IsSound {w} (swaps i j e) v =
      moved-IsSound (λ h valid. swap-Moves invalid h valid i j w.objects e) v

  Reach-IsSound : {w : World} → Reach invalid empty_world w → IsSound w
  Reach-IsSound start = record { once = λ h valid. omega arith; kept = λ h valid. omega arith }
  Reach-IsSound (later r st) = Step-IsSound st (Reach-IsSound r)

  -- In every history of the owners of handles, where the system hands out no handle that an object
  -- has: a valid handle is in one object at most; and as often as it was given to the objects, it
  -- is in an object, was closed, was given back by `release`, or was in an object whose value a
  -- caller overwrote through its address.
  pub conserved :
      {w : World} (h : ℕ)
      → Reach invalid empty_world w
      → h ≢ invalid
      → (owned h w.objects.values ≤ 1)
        × (owned h w.objects.values
              + occurrences h w.objects.closed
              + occurrences h w.released
              + occurrences h w.overwritten
            ≡ occurrences h w.given)
  conserved h r valid = ((Reach-IsSound r).once h valid, (Reach-IsSound r).kept h valid)

  Step-overwritten :
      {w u : World} (h : ℕ)
      → Step invalid w u
      → occurrences h w.overwritten ≤ occurrences h u.overwritten
  Step-overwritten h (constructs x f) = omega arith
  Step-overwritten h (destructs i e) = omega arith
  Step-overwritten h (releases i x e) = omega arith
  Step-overwritten h (resets i x f e) = omega arith
  Step-overwritten h (resets_same i x here e) = omega arith
  Step-overwritten h (move_constructs i e) = omega arith
  Step-overwritten h (move_assigns i j e) = omega arith
  Step-overwritten h (move_assigns_fd i j e) = omega arith
  Step-overwritten h (puts i x f e) = omega arith
  Step-overwritten h (writes i x m f here e) = omega arith
  Step-overwritten h (swaps i j e) = omega arith

  Reach-overwritten :
      {w u : World} (h : ℕ)
      → Reach invalid w u
      → occurrences h w.overwritten ≤ occurrences h u.overwritten
  Reach-overwritten h start = omega arith
  Reach-overwritten h (later r st) = omega (arith, Reach-overwritten h r, Step-overwritten h st)

  Reach-trans : {w t u : World} → Reach invalid w t → Reach invalid t u → Reach invalid w u
  Reach-trans r start = r
  Reach-trans r (later q st) = later (Reach-trans r q) st

  -- After a caller has written through the address that `get_address_of` of `unique_handle` or
  -- `put` of `unique_fd` gives out, while the object has a valid handle, in every later state the
  -- handle was given more often than it is in an object, was closed or was given back: one of its
  -- openings is never closed.
  pub overwritten_leaks :
      {w u : World} (i v m : ℕ) {t : Objects}
      → Reach invalid empty_world w
      → m ≢ invalid
      → IsFresh invalid v w.objects
      → get i w.objects ≡ ok m
      → get_address_of i v w.objects ≡ ok t
      → Reach invalid
          (record w { objects = t; given = v ∷ w.given; overwritten = m ∷ w.overwritten })
          u
      → owned m u.objects.values + occurrences m u.objects.closed + occurrences m u.released
        < occurrences m u.given
  overwritten_leaks {w} {u} i v m r valid f here e q =
      let here_too : (m == m) ≡ true = ground arith in
      let grown = Reach-overwritten m q in
      let all = Reach-trans (later r (writes i v m f here e)) q in
      omega (arith, (Reach-IsSound all).kept m valid, grown, rw here_too at grown)
