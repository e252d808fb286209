-- ===== src/Search/Phases.antt =====
-- applications/binary-search/state_machine.hpp: which frames of a multi-lookup are searching.
use coroutines.Base.{
  ℕ, zero, suc, ◌<◌, ◌≡◌, ◌≢◌, sym, ap, ◌∙◌, Bool, true, false, List, Result, ok, at, at-set_self,
  at-set_ne, set, replicate, length, ◌==◌, ==_iff, ltb, Bool-cases, ◌⊎◌, inl, inr, arith,
}
use coroutines.Search.Core.{Frame, new_frame, is_running}

-- Which frames are searching.
abbrev pub States : List Frame → (ℕ → Bool) → Type 0
States fs p = (j : ℕ) (f : Frame) → at fs j ≡ ok f → is_running f.state ≡ p j

-- All frames are searching, or those behind the next one.
abbrev pub Phase : List Frame → ℕ → Type 0
Phase fs i = States fs (λ _. true) ⊎ States fs (ltb i)

pub ok-frame : {f g : Frame} → ◌≡◌ {A = Result Frame} (ok f) (ok g) → f ≡ g
ok-frame e = cc e

pub States-set :
    (fs : List Frame) (i : ℕ) (f : Frame) (p q : ℕ → Bool)
    → i < length fs
    → States fs p
    → is_running f.state ≡ q i
    → ((j : ℕ) → i ≢ j → q j ≡ p j)
    → States (set fs i f) q
States-set fs i f p q inside s here others j g e = elim (Bool-cases (i == j)) [
  | inl same ↦
      let ij = (==_iff i j).0 same in
      let found = sym (at-set_self fs i f inside) ∙ ap (at (set fs i f)) ij ∙ e in
      ap (λ (h : Frame). is_running h.state) (sym (ok-frame found)) ∙ here ∙ ap q ij
  | inr apart ↦
      let ne : i ≢ j = λ h. ground (arith, apart, h) in
      s j g (sym (at-set_ne fs i j f ne) ∙ e) ∙ sym (others j ne)
]

pub new_frames-States :
    (n j : ℕ) (f : Frame) → at (replicate n new_frame) j ≡ ok f → is_running f.state ≡ false
new_frames-States zero j f e = cc e
new_frames-States (suc n) zero f e = ap (λ (g : Frame). is_running g.state) (sym (ok-frame e))
new_frames-States (suc n) (suc j) f e = new_frames-States n j f e
