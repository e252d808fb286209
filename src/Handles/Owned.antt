-- ===== src/Handles/Owned.antt =====
-- What each operation of libcoro/include/libcoro/win/unique_handle.hpp and nix/unique_fd.hpp does to
-- a handle.
use coroutines.Base.{
  ℕ, ◌+◌, ◌≤◌, ◌≡◌, ◌≢◌, refl, sym, ap, ◌∙◌, subst, true, Bool-cases, Option, none, some, ok,
  >>=-eq-ok, ◌==◌, ==_iff, inl, inr, arith,
}
use coroutines.Awaiters.{occurrences}
use coroutines.Handles.Core.{
  Objects, get, store, construct, close, destruct, release, reset, move_assign_fd, put,
  get_address_of, swap,
}
use coroutines.Handles.Ledger.{
  one, holds, owned, owned-append, store-owned, get-owned, close-closed, get-store, get-close,
}
use coroutines.Handles.Steps.{IsFresh}

pub ok-eq {ℓ} : {A : Type ℓ} {a b : A} → ok a ≡ ok b → a ≡ b
ok-eq e = cc e

one-bound : (h v : ℕ) → one h v ≤ 1
one-bound h v = ground arith

module _ (invalid h : ℕ) (valid : h ≢ invalid) where
  one-invalid : one h invalid ≡ 0
  one-invalid = ground (arith, valid)

  fresh-owned :
      (v : ℕ) (s : Objects)
      → IsFresh invalid v s
      → owned h s.values ≤ 1
      → owned h s.values + one h v ≤ 1
  fresh-owned v s f l = elim f [
    | inl none_given ↦ omega (arith, ap (one h) none_given, one-invalid, l)
    | inr absent ↦ elim (Bool-cases (v == h)) [
      | inl same ↦
          rw same (omega (arith, ap (λ k. owned k s.values) (sym ((==_iff v h).0 same)), absent))
      | inr other ↦ rw other (omega (arith, l))
    ]
  ]

  -- What an operation does to the handle, where the caller gives `v` of it to the objects and gets
  -- `out` back: it is closed as often as the objects lose it otherwise, and is owned once at most.
  pub record Moves (v out : ℕ) (s t : Objects) : Type 0 where
    pub total :
        owned h t.values + occurrences h t.closed + out
        ≡ owned h s.values + occurrences h s.closed + v
    pub once : owned h s.values ≤ 1 → owned h t.values ≤ 1

  -- A write to an object whose value is closed.
  replaced-owned :
      (i v : ℕ) (o : Option ℕ) (s : Objects)
      → get i s ≡ ok v
      → owned h (store i o (close invalid v s)).values + one h v ≡ owned h s.values + holds h o
  replaced-owned i v o s e = elim (Bool-cases (v == invalid)) [
    | inl hit ↦ rw hit (store-owned h i s v o e)
    | inr miss ↦ rw miss (store-owned h i s v o e)
  ]

  replaced-Moves :
      (i v : ℕ) (o : Option ℕ) (s : Objects)
      → get i s ≡ ok v
      → (owned h (store i none s).values ≤ 1 → owned h (store i none s).values + holds h o ≤ 1)
      → Moves (holds h o) 0 s (store i o (close invalid v s))
  replaced-Moves i v o s e f = record {
    total = omega (arith, replaced-owned i v o s e, close-closed invalid h v s valid);
    once = λ l. omega (
      arith,
      replaced-owned i v o s e,
      store-owned h i s v none e,
      f (omega (arith, l, store-owned h i s v none e)),
    );
  }

  pub construct-Moves :
      (v : ℕ) (s : Objects) → IsFresh invalid v s → Moves (one h v) 0 s (construct v s)
  construct-Moves v s f = record {
    total = omega (arith, owned-append h s.values (some v));
    once = λ l. omega (arith, owned-append h s.values (some v), fresh-owned v s f l);
  }

  pub destruct-Moves :
      (i : ℕ) (s : Objects) {t : Objects} → destruct invalid i s ≡ ok t → Moves 0 0 s t
  unfolding destruct
  destruct-Moves i s e =
      let (v, here, e') = >>=-eq-ok (get i s) _ e in
      subst (Moves 0 0 s) (ok-eq e') (replaced-Moves i v none s here (λ l. omega (arith, l)))

  pub put-Moves :
      (i v : ℕ) (s : Objects) {t : Objects}
      → IsFresh invalid v (store i none s)
      → put invalid i v s ≡ ok t
      → Moves (one h v) 0 s t
  unfolding put
  put-Moves i v s f e =
      let (m, here, e') = >>=-eq-ok (get i s) _ e in
      subst (Moves (one h v) 0 s) (ok-eq e')
        (replaced-Moves i m (some v) s here (fresh-owned v (store i none s) f))

  -- `release` takes the value out of the object and closes nothing.
  pub release-exact :
      (i v : ℕ) (s : Objects) {t : Objects}
      → release invalid i s ≡ ok (v, t)
      → (owned h t.values + one h v ≡ owned h s.values) × (t.closed ≡ s.closed)
  unfolding release
  release-exact i v s e =
      let (m, here, e') = >>=-eq-ok (get i s) _ e in
      let p = ok-eq e' in
      let same : m ≡ v = ap (λ r. r.0) p in
      let moved = store-owned h i s m (some invalid) here in
      subst (λ u. (owned h u.values + one h v ≡ owned h s.values) × (u.closed ≡ s.closed))
        (ap (λ r. r.1) p) (omega (arith, moved, one-invalid, ap (one h) same), refl)

  pub release-Moves :
      (i v : ℕ) (s : Objects) {t : Objects}
      → release invalid i s ≡ ok (v, t)
      → Moves 0 (one h v) s t
  release-Moves i v s e =
      let (moved, same) = release-exact i v s e in
      record {
        total = omega (arith, moved, ap (occurrences h) same);
        once = λ l. omega (arith, moved, l);
      }

  -- A value that `release` took out, and that another operation puts into an object.
  pub handed-Moves :
      (i v : ℕ) (s : Objects) {t u : Objects}
      → release invalid i s ≡ ok (v, t)
      → Moves (one h v) 0 t u
      → Moves 0 0 s u
  handed-Moves i v s e moves =
      let (moved, same) = release-exact i v s e in
      record {
        total = omega (arith, moved, ap (occurrences h) same, moves.total);
        once = λ l. moves.once (omega (arith, moved, l));
      }

  pub reset-Moves :
      (i v : ℕ) (s : Objects) {t : Objects}
      → IsFresh invalid v s
      → reset invalid i v s ≡ ok t
      → Moves (one h v) 0 s t
  unfolding reset
  reset-Moves i v s f e =
      let (m, here, e') = >>=-eq-ok (get i s) _ e in
      elim (Bool-cases (m == v)) [
        | inl same ↦
            let p : m ≡ v = (==_iff m v).0 same in
            let mine : 1 ≤ owned v s.values = get-owned i s v (here ∙ ap ok p) in
            let nothing : one h v ≡ 0 = elim f [
              | inl none_given ↦ ap (one h) none_given ∙ one-invalid
              | inr absent ↦ absurd (omega (arith, mine, absent))
            ] in
            subst (Moves (one h v) 0 s) (ok-eq (rw same at e'))
              record { total = omega (arith, nothing); once = λ l. l }
        | inr other ↦ subst (Moves (one h v) 0 s) (ok-eq (rw other at e')) (
            replaced-Moves i m (some v) s here (
              fresh-owned v (store i none s) (elim f [
                | inl none_given ↦ inl none_given
                | inr absent ↦ inr (omega (arith, absent, store-owned v i s m none here))
              ])))
      ]

  pub reset_same-Moves :
      (i v : ℕ) (s : Objects) {t : Objects}
      → get i s ≡ ok v
      → reset invalid i v s ≡ ok t
      → Moves 0 0 s t
  unfolding reset
  reset_same-Moves i v s here e =
      let same : (v == v) ≡ true = ground arith in
      subst (Moves 0 0 s) (ok-eq (rw (here, same) at e)) record { total = refl; once = λ l. l }

  pub writes-Moves :
      (i v m : ℕ) (s : Objects) {t : Objects}
      → IsFresh invalid v s
      → get i s ≡ ok m
      → get_address_of i v s ≡ ok t
      → Moves (one h v) (one h m) s t
  unfolding get_address_of
  writes-Moves i v m s f here e =
      let moved = store-owned h i s m (some v) here in
      subst (Moves (one h v) (one h m) s) (ok-eq (rw here at e)) record {
        total = omega (arith, moved);
        once = λ l. omega (arith, moved, fresh-owned v s f l);
      }

  pub swap-Moves : (i j : ℕ) (s : Objects) {t : Objects} → swap i j s ≡ ok t → Moves 0 0 s t
  unfolding swap
  swap-Moves i j s e =
      let (a, first, e') = >>=-eq-ok (get i s) _ e in
      let (b, second, e'') = >>=-eq-ok (get j s) _ e' in
      let s' : Objects = store i (some b) s in
      let one_moved = store-owned h i s a (some b) first in
      let other_moved = store-owned h j s' b (some a) (get-store i j s a b first second) in
      subst (Moves 0 0 s) (ok-eq e'') record {
        total = omega (arith, one_moved, other_moved);
        once = λ l. omega (arith, one_moved, other_moved, l);
      }

  pub move_assign_fd-Moves :
      (i j : ℕ) (s : Objects) {t : Objects} → move_assign_fd invalid i j s ≡ ok t → Moves 0 0 s t
  unfolding move_assign_fd
  move_assign_fd-Moves i j s e = elim (Bool-cases (j == i)) [
    | inl same ↦ subst (Moves 0 0 s) (ok-eq (rw same at e)) record { total = refl; once = λ l. l }
    | inr other ↦
        let e0 = rw other at e in
        let (m, first, e') = >>=-eq-ok (get i s) _ e0 in
        let (v, second, e'') = >>=-eq-ok (get j s) _ e' in
        let c : Objects = close invalid m s in
        let s' : Objects = store i (some v) c in
        let taken = replaced-owned i m (some v) s first in
        let there =
          get-store i j c m v (get-close invalid m i s ∙ first)
            (get-close invalid m j s ∙ second) in
        let left = store-owned h j s' v (some invalid) there in
        let shut = close-closed invalid h m s valid in
        subst (Moves 0 0 s) (ok-eq e'') record {
          total = omega (arith, taken, left, shut, one-invalid);
          once = λ l. omega (arith, taken, left, one-invalid, l);
        }
  ]
