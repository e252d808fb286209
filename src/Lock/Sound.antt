-- ===== src/Lock/Sound.antt =====
-- The lock of primitives/async-lock along any history: its invariant.
use coroutines.Base.{
  ℕ, suc, ◌≤◌, ◌≡◌, refl, sym, ap, subst, ◌∙◌, false, List, [], ◌∷◌, err, wild_deref, no_fuel, ◌==◌,
  leb, if◌then◌else◌, length, arith, zero,
}
use coroutines.Awaiters.{Pointer, null, marker, awaiter, update_at, occurrences, weight-update_at}
use coroutines.Lock.Core.{
  Phase, running, looping, suspended, holding, transferring, Lock, is_null, reverse_loop,
}

-- The stack of waiters that the state heads, down to LOCKED_NO_WAITERS.
abbrev pub Stack : (ℕ → Pointer) → Pointer → List ℕ → Type 0
Stack next p [] = p ≡ marker
Stack next p (w ∷ ws) = (p ≡ awaiter w) × Stack next (next w) ws

Stack-update_at :
    (next : ℕ → Pointer) (w : ℕ) (q p : Pointer) (ws : List ℕ)
    → occurrences w ws ≡ 0
    → Stack next p ws
    → Stack (update_at next w q) p ws
Stack-update_at next w q p [] out c = c
Stack-update_at next w q p (v ∷ ws) out c =
    let miss : (v == w) ≡ false = ground arith in
    (c.0, rw miss (Stack-update_at next w q (next v) ws (omega (arith, out)) c.1))

Stack-not_null :
    (next : ℕ → Pointer) (p : Pointer) (ws : List ℕ) → Stack next p ws → is_null p ≡ false
Stack-not_null next p [] c = rw c
Stack-not_null next p (w ∷ ws) c = rw c.0

-- The loop of `release` over such a stack reads through the end mark.
pub reverse_loop-Stack :
    (fuel : ℕ) (next : ℕ → Pointer) (p head : Pointer) (ws : List ℕ)
    → Stack next p ws
    → ((w : ℕ) → occurrences w ws ≤ 1)
    → reverse_loop fuel next p head ≡ err (if leb fuel (length ws) then no_fuel else wild_deref)
unfolding reverse_loop
reverse_loop-Stack zero next p head ws c once = ground arith
reverse_loop-Stack (suc fuel) next p head [] c once = rw c (ground arith)
reverse_loop-Stack (suc fuel) next p head (w ∷ ws) c once =
    let out : occurrences w ws ≡ 0 = ground (arith, once w) in
    let go =
      reverse_loop-Stack fuel (update_at next w head) (next w) (awaiter w) ws
        (Stack-update_at next w head (next w) ws out c.1) (λ x. ground (arith, once x)) in
    let counts : leb (suc fuel) (suc (length ws)) ≡ leb fuel (length ws) = ground arith in
    rw (c.0, Stack-not_null next (next w) ws c.1, counts) go

abbrev pub listed : Pointer → Pointer
listed null = marker
listed marker = marker
listed (awaiter w) = awaiter w

pub listed-locked : (p : Pointer) → is_null p ≡ false → listed p ≡ p
listed-locked null h = cc h
listed-locked marker h = refl
listed-locked (awaiter w) h = refl

abbrev pub waiting : Phase → ℕ
waiting running = 0
waiting (looping prev_state) = 0
waiting suspended = 1
waiting holding = 0
waiting transferring = 0

abbrev pub owning : Phase → ℕ
owning running = 0
owning (looping prev_state) = 0
owning suspended = 0
owning holding = 1
owning transferring = 1

-- The state heads a stack of all that are suspended; it is locked exactly if some coroutine has the
-- lock, and no two have it; `awaiters` is never filled.
pub record IsSound (l : Lock) : Type 0 where
  pub chain : List ℕ
  pub owners : List ℕ
  pub queue : l.awaiters ≡ null
  pub linked : Stack l.next_awaiter (listed l.state) chain
  pub once : (w : ℕ) → occurrences w chain ≡ waiting (l.phase w)
  pub own : (w : ℕ) → occurrences w owners ≡ owning (l.phase w)
  pub held : length owners ≡ (if is_null l.state then 0 else 1)

occurrences-length : (w : ℕ) (ws : List ℕ) → occurrences w ws ≤ length ws
occurrences-length w [] = omega arith
occurrences-length w (v ∷ ws) = ground (arith, occurrences-length w ws)

-- Who has the lock keeps it locked.
pub owning-locked :
    {l : Lock} (w : ℕ) → 1 ≤ owning (l.phase w) → IsSound l → is_null l.state ≡ false
owning-locked {l} w h v = ground (arith, v.own w, v.held, occurrences-length w v.owners)

pub IsSound-phase :
    {l : Lock} (w : ℕ) (p : Phase)
    → waiting (l.phase w) ≡ waiting p
    → owning (l.phase w) ≡ owning p
    → IsSound l
    → IsSound (record l { phase = update_at l.phase w p })
IsSound-phase {l} w p same_waiting same_owning v = record {
  chain = v.chain;
  owners = v.owners;
  queue = v.queue;
  linked = v.linked;
  once = λ x. ground (arith, v.once x, weight-update_at waiting l.phase w p x, same_waiting);
  own = λ x. ground (arith, v.own x, weight-update_at owning l.phase w p x, same_owning);
  held = v.held;
}

pub IsSound-next :
    {l : Lock} (w : ℕ) (q : Pointer)
    → waiting (l.phase w) ≡ 0
    → IsSound l
    → IsSound (record l { next_awaiter = update_at l.next_awaiter w q })
IsSound-next {l} w q out v = record {
  chain = v.chain;
  owners = v.owners;
  queue = v.queue;
  linked =
      Stack-update_at l.next_awaiter w q (listed l.state) v.chain (omega (arith, v.once w, out))
        v.linked;
  once = v.once;
  own = v.own;
  held = v.held;
}

-- The exchange that takes a free lock.
pub IsSound-take :
    {l : Lock} (w : ℕ) (p : Pointer)
    → l.phase w ≡ looping p
    → l.state ≡ null
    → IsSound l
    → IsSound (record l { state = marker; phase = update_at l.phase w holding })
IsSound-take {l} w p h free v =
    let was_waiting = ap waiting h in
    let was_owning = ap owning h in
    let none : length v.owners ≡ 0 = rw free at v.held in
    record {
      chain = v.chain;
      owners = w ∷ v.owners;
      queue = v.queue;
      linked = rw free at v.linked;
      once =
          λ x. ground (arith, v.once x, weight-update_at waiting l.phase w holding x, was_waiting);
      own = λ x. ground (arith, v.own x, weight-update_at owning l.phase w holding x, was_owning);
      held = omega (arith, none);
    }

-- The exchange that links a waiter.
pub IsSound-link :
    {l : Lock} (w : ℕ) (p : Pointer)
    → l.phase w ≡ looping p
    → is_null l.state ≡ false
    → l.next_awaiter w ≡ l.state
    → IsSound l
    → IsSound (record l { state = awaiter w; phase = update_at l.phase w suspended })
IsSound-link {l} w p h locked next v =
    let was_waiting = ap waiting h in
    let was_owning = ap owning h in
    record {
      chain = w ∷ v.chain;
      owners = v.owners;
      queue = v.queue;
      linked = (
        refl,
        subst (λ q. Stack l.next_awaiter q v.chain) (listed-locked l.state locked ∙ sym next)
            v.linked,
      );
      once = λ x.
          ground (arith, v.once x, weight-update_at waiting l.phase w suspended x, was_waiting);
      own = λ x. ground (arith, v.own x, weight-update_at owning l.phase w suspended x, was_owning);
      held = rw locked at v.held;
    }
