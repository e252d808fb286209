-- ===== src/Event/Sound.antt =====
-- The event of primitives/manual-reset-event along any history: its invariant.
use coroutines.Base.{
  ℕ, ◌+◌, ◌≤◌, ◌≡◌, refl, ap, subst, Bool, true, false, List, [], ◌∷◌, ◌++◌, ◌==◌, if◌then◌else◌,
  not, ◌&&◌, Bool-cases, inl, inr, arith,
}
use coroutines.Awaiters.{
  weight-update_at, Pointer, null, marker, awaiter, is_marker, same, same-≡, update_at, occurrences,
  Chain, Chain-update_at, Chains, no_chains, one_more, all_occurrences, Chains-update_at,
  Chains-next,
}
use coroutines.Event.Core.{
  Phase, running, checked, looping, suspended, Event, new_event, is_set, await_ready, load_state,
  await_suspend_round, set_exchange, resume_round, reset, Step, ready, suspend, round, set, resume,
  clear, Reach, start, later,
}

-- The list that the event's own word heads: none if it is set.
abbrev pub listed : Pointer → Pointer
listed null = null
listed marker = null
listed (awaiter w) = awaiter w

abbrev pub waiting : Phase → ℕ
waiting running = 0
waiting checked = 0
waiting (looping old_val) = 0
waiting suspended = 1

waiting_le : (p : Phase) → waiting p ≤ 1
waiting_le running = omega arith
waiting_le checked = omega arith
waiting_le (looping old_val) = omega arith
waiting_le suspended = omega arith

waiting_ready : (b : Bool) → 0 ≡ waiting (if b then running else checked)
waiting_ready true = refl
waiting_ready false = refl

-- The word and the calls of `set` head lists, which hold each suspended awaiter once, and no other.
pub record IsSound (e : Event) : Type 0 where
  pub chain : List ℕ
  pub chains : List (List ℕ)
  pub linked : Chain e.next_awaiter (listed e.state) chain
  pub held : Chains e.next_awaiter e.setters chains
  pub once : (w : ℕ) → occurrences w chain + all_occurrences w chains ≡ waiting (e.phase w)

-- An awaiter outside of the lists goes on to a phase that keeps it outside.
IsSound-phase :
    {e : Event} (w : ℕ) (p : Phase)
    → waiting (e.phase w) ≡ waiting p
    → IsSound e
    → IsSound (record e { phase = update_at e.phase w p })
IsSound-phase {e} w p same_waiting v = record {
  chain = v.chain;
  chains = v.chains;
  linked = v.linked;
  held = v.held;
  once = λ x. ground (arith, v.once x, weight-update_at waiting e.phase w p x, same_waiting);
}

-- A write to `next_awaiter` of an awaiter outside of the lists.
IsSound-next :
    {e : Event} (w : ℕ) (q : Pointer)
    → waiting (e.phase w) ≡ 0
    → IsSound e
    → IsSound (record e { next_awaiter = update_at e.next_awaiter w q })
IsSound-next {e} w q out v = record {
  chain = v.chain;
  chains = v.chains;
  linked =
      Chain-update_at e.next_awaiter w q (listed e.state) v.chain (omega (arith, v.once w, out))
        v.linked;
  held = Chains-update_at w q (omega (arith, v.once w, out)) v.held;
  once = v.once;
}

pub listed-unset : (p : Pointer) → is_marker p ≡ false → p ≡ listed p
listed-unset null h = refl
listed-unset marker h = cc h
listed-unset (awaiter w) h = refl

pub listed-set : (p : Pointer) → is_marker p ≡ true → listed p ≡ null
listed-set null h = refl
listed-set marker h = refl
listed-set (awaiter w) h = cc h

-- The exchange that links an awaiter.
IsSound-link :
    {e : Event} (w : ℕ)
    → is_marker e.state ≡ false
    → waiting (e.phase w) ≡ 0
    → e.next_awaiter w ≡ e.state
    → IsSound e
    → IsSound (record e { state = awaiter w; phase = update_at e.phase w suspended })
IsSound-link {e} w unset out next v = record {
  chain = w ∷ v.chain;
  chains = v.chains;
  linked = (refl, rw (next, listed-unset e.state unset) v.linked);
  held = v.held;
  once = λ x. ground (arith, v.once x, weight-update_at waiting e.phase w suspended x, out);
}

round-IsSound :
    {e : Event} (spurious : Bool) (w : ℕ) (old_val : Pointer)
    → e.phase w ≡ looping old_val
    → IsSound e
    → IsSound (await_suspend_round spurious w old_val e)
unfolding await_suspend_round
round-IsSound {e} spurious w old_val h v =
    let out : waiting (e.phase w) ≡ 0 = ap waiting h in
    let v' = IsSound-next w old_val out v in
    elim (Bool-cases (is_marker old_val)) [
      | inl set_now ↦ rw set_now (IsSound-phase w running out v)
      | inr unset ↦ elim (Bool-cases (same e.state old_val && not spurious)) [
        | inl exchanged ↦
            let now : e.state ≡ old_val = same-≡ e.state old_val (ground (arith, exchanged)) in
            let here : (w == w) ≡ true = ground arith in
            rw (unset, exchanged) (IsSound-link w (rw now unset) out (rw (here, now)) v')
        | inr failed ↦ rw (unset, failed) (IsSound-phase w (looping e.state) out v')
      ]
    ]

set-IsSound : {e : Event} → IsSound e → IsSound (set_exchange e)
unfolding set_exchange
set-IsSound {e} v = elim (Bool-cases (is_marker e.state)) [
  | inl set_before ↦ rw set_before (record {
    chain = v.chain;
    chains = v.chains;
    linked = rw (listed-set e.state set_before) at v.linked;
    held = v.held;
    once = v.once;
  })
  | inr unset ↦ rw unset (record {
    chain = [];
    chains = v.chain ∷ v.chains;
    linked = refl;
    held = one_more (rw (listed-unset e.state unset) v.linked) v.held;
    once = λ w. omega (arith, v.once w);
  })
]

reset-IsSound : {e : Event} → IsSound e → IsSound (reset e)
unfolding reset
reset-IsSound {e} v = elim (Bool-cases (is_marker e.state)) [
  | inl set_before ↦ rw set_before (record {
    chain = v.chain;
    chains = v.chains;
    linked = rw (listed-set e.state set_before) at v.linked;
    held = v.held;
    once = v.once;
  })
  | inr unset ↦ rw unset v
]

resume-IsSound :
    {e : Event} (before : List Pointer) (w : ℕ) (after : List Pointer)
    → e.setters ≡ before ++ awaiter w ∷ after
    → IsSound e
    → IsSound (resume_round before w after e)
unfolding resume_round
resume-IsSound {e} before w after h v =
    let (rest, held, counts) =
      Chains-next before w after (subst (λ ps. Chains e.next_awaiter ps v.chains) h v.held) in
    record {
      chain = v.chain;
      chains = rest;
      linked = v.linked;
      held = held;
      once = λ x. ground (
        arith,
        v.once x,
        v.once w,
        counts x,
        counts w,
        waiting_le (e.phase w),
        weight-update_at waiting e.phase w running x,
      );
    }

Step-IsSound : {e f : Event} → Step e f → IsSound e → IsSound f
unfolding await_ready load_state
Step-IsSound {e} (ready w h) v = IsSound-phase w _ (rw h (waiting_ready (is_set e))) v
Step-IsSound {e} (suspend w h) v = IsSound-phase w (looping e.state) (ap waiting h) v
Step-IsSound {e} (round spurious w old_val h) v = round-IsSound spurious w old_val h v
Step-IsSound {e} set v = set-IsSound v
Step-IsSound {e} (resume before w after h) v = resume-IsSound before w after h v
Step-IsSound {e} clear v = reset-IsSound v

new_event-IsSound : (b : Bool) → IsSound (new_event b)
new_event-IsSound true = record {
  chain = [];
  chains = [];
  linked = refl;
  held = no_chains;
  once = λ w. refl;
}
new_event-IsSound false = record {
  chain = [];
  chains = [];
  linked = refl;
  held = no_chains;
  once = λ w. refl;
}

pub Reach-IsSound : {b : Bool} {e : Event} → Reach b e → IsSound e
Reach-IsSound {b} start = new_event-IsSound b
Reach-IsSound (later r st) = Step-IsSound st (Reach-IsSound r)
