-- ===== src/Latch/Sound.antt =====
-- The latch of primitives/async-latch along any history: its invariant.
use coroutines.Base.{
  ℕ, suc, ◌+◌, ◌≤◌, ◌<◌, ◌≡◌, refl, sym, ap, subst, ◌∙◌, Bool, true, false, List, [], ◌∷◌, ◌++◌,
  ◌==◌, ltb, if◌then◌else◌, not, ◌&&◌, ==_iff, Bool-cases, inl, inr, length, length-append, arith,
}
use coroutines.Awaiters.{
  weight-update_at, Pointer, awaiter, same, same-≡, update_at, occurrences, Chain, Chain-update_at,
  Chains, no_chains, one_more, all_occurrences, Chains-update_at, Chains-next, AllNull,
  Chains-AllNull,
}
use coroutines.Latch.Core.{
  Phase, running, checked, testing, linking, suspended, Call, Latch, new_latch, await_ready,
  load_head, test_expired, link_awaiter, load_count, count_down_round, read_awaiters, resume_round,
  Step, ready, suspend, test, link, call, round, read, resume, Reach, start, later,
}

abbrev pub waiting : Phase → ℕ
waiting running = 0
waiting checked = 0
waiting (testing old_head) = 0
waiting (linking old_head) = 0
waiting suspended = 1

-- Until `awaiters` is read by a call that reached zero, it heads a list that holds each suspended
-- awaiter once and no other; at most one call gets there, and what it has not resumed is suspended.
pub record IsSound (l : Latch) : Type 0 where
  pub chain : List ℕ
  pub chains : List (List ℕ)
  pub linked : Chain l.next_awaiter l.awaiters chain
  pub held : Chains l.next_awaiter l.resuming chains
  pub one : l.released + length l.resuming ≤ (if l.count == 0 then 1 else 0)
  pub once : 0 < l.count + l.released → (w : ℕ) → occurrences w chain ≡ waiting (l.phase w)
  pub below : (w : ℕ) → all_occurrences w chains ≤ waiting (l.phase w)
  pub prepared : (w : ℕ) (p : Pointer) → l.phase w ≡ linking p → l.next_awaiter w ≡ p

-- `prepared` for the other awaiters, where `w` goes on to a phase `p`.
prepared_phase :
    {l : Latch} (w : ℕ) (p : Phase)
    → ((q : Pointer) → p ≡ linking q → l.next_awaiter w ≡ q)
    → IsSound l
    → (x : ℕ) (q : Pointer) → update_at l.phase w p x ≡ linking q
    → l.next_awaiter x ≡ q
prepared_phase {l} w p own v x q e = elim (Bool-cases (x == w)) [
  | inl hit ↦ rw ((==_iff x w).0 hit) (own q (rw hit at e))
  | inr miss ↦ v.prepared x q (rw miss at e)
]

IsSound-phase :
    {l : Latch} (w : ℕ) (p : Phase)
    → waiting (l.phase w) ≡ waiting p
    → ((q : Pointer) → p ≡ linking q → l.next_awaiter w ≡ q)
    → IsSound l
    → IsSound (record l { phase = update_at l.phase w p })
IsSound-phase {l} w p same_waiting own v = record {
  chain = v.chain;
  chains = v.chains;
  linked = v.linked;
  held = v.held;
  one = v.one;
  once = λ h x. ground (arith, v.once h x, weight-update_at waiting l.phase w p x, same_waiting);
  below = λ x. ground (arith, v.below x, weight-update_at waiting l.phase w p x, same_waiting);
  prepared = prepared_phase w p own v;
}

no_calls_left : (ps : List Pointer) → length ps ≤ 0 → AllNull ps
no_calls_left [] h = tt
no_calls_left (p ∷ ps) h = absurd (omega arith)

-- While the count is not zero no call resumes.
chains-zero :
    {l : Latch} (w : ℕ) (v : IsSound l) → length l.resuming ≡ 0 → all_occurrences w v.chains ≡ 0
chains-zero {l} w v h = Chains-AllNull (no_calls_left l.resuming (omega (arith, h))) v.held w

IsSound-next :
    {l : Latch} (w : ℕ) (q old_head : Pointer)
    → (l.count == 0) ≡ false
    → l.phase w ≡ testing old_head
    → IsSound l
    → IsSound (record l { next_awaiter = update_at l.next_awaiter w q })
IsSound-next {l} w q old_head counting h v =
    let out : waiting (l.phase w) ≡ 0 = ap waiting h in
    record {
      chain = v.chain;
      chains = v.chains;
      linked =
          Chain-update_at l.next_awaiter w q l.awaiters v.chain
            (ground (arith, counting, v.once (ground (arith, counting)) w, out)) v.linked;
      held = Chains-update_at w q (omega (arith, v.below w, out)) v.held;
      one = v.one;
      once = v.once;
      below = v.below;
      prepared = λ x p e. elim (Bool-cases (x == w)) [
        | inl hit ↦ cc (e, h, ap l.phase ((==_iff x w).0 hit))
        | inr miss ↦ rw miss (v.prepared x p e)
      ];
    }

test-IsSound :
    {l : Latch} (w : ℕ) (old_head : Pointer)
    → l.phase w ≡ testing old_head
    → IsSound l
    → IsSound (test_expired w old_head l)
unfolding test_expired
test-IsSound {l} w old_head h v =
    let here : (w == w) ≡ true = ground arith in
    elim (Bool-cases (l.count == 0)) [
      | inl zero ↦ rw zero (IsSound-phase w running (ap waiting h) (λ q e. cc e) v)
      | inr counting ↦ rw counting (
          IsSound-phase w (linking old_head) (ap waiting h) (λ q e. rw here (cc e))
            (IsSound-next w old_head old_head counting h v))
    ]

link-IsSound :
    {l : Latch} (spurious : Bool) (w : ℕ) (old_head : Pointer)
    → l.phase w ≡ linking old_head
    → IsSound l
    → IsSound (link_awaiter spurious w old_head l)
unfolding link_awaiter
link-IsSound {l} spurious w old_head h v =
    let out : waiting (l.phase w) ≡ 0 = ap waiting h in
    elim (Bool-cases (same l.awaiters old_head && not spurious)) [
      | inl exchanged ↦
          let now : l.awaiters ≡ old_head =
            same-≡ l.awaiters old_head (ground (arith, exchanged)) in
          rw exchanged (record {
            chain = w ∷ v.chain;
            chains = v.chains;
            linked = (
              refl,
              subst (λ p. Chain l.next_awaiter p v.chain) (now ∙ sym (v.prepared w old_head h))
                  v.linked,
            );
            held = v.held;
            one = v.one;
            once = λ pos x.
                ground (arith, v.once pos x, weight-update_at waiting l.phase w suspended x, out);
            below =
                λ x. ground (arith, v.below x, weight-update_at waiting l.phase w suspended x, out);
            prepared = prepared_phase w suspended (λ q e. cc e) v;
          })
      | inr failed ↦ rw failed (IsSound-phase w (testing l.awaiters) out (λ q e. cc e) v)
    ]

IsSound-calls : {l : Latch} (calls : List Call) → IsSound l → IsSound (record l { calls = calls })
IsSound-calls calls v = record {
  chain = v.chain;
  chains = v.chains;
  linked = v.linked;
  held = v.held;
  one = v.one;
  once = v.once;
  below = v.below;
  prepared = v.prepared;
}

round-IsSound :
    {l : Latch} (spurious : Bool) (before : List Call) (c : Call) (after : List Call)
    → 0 < c.n
    → IsSound l
    → IsSound (count_down_round spurious before c after l)
unfolding count_down_round
round-IsSound {l} spurious before c after pos v = elim (Bool-cases (ltb c.old_count c.n)) [
  | inl above ↦ rw above (IsSound-calls (before ++ after) v)
  | inr enough ↦ elim (Bool-cases ((l.count == c.old_count) && not spurious)) [
    | inl exchanged ↦
        rw (enough, exchanged)
          (record {
            chain = v.chain;
            chains = v.chains;
            linked = v.linked;
            held = v.held;
            one = ground (arith, v.one, exchanged, enough, pos);
            once = λ h. v.once (ground (arith, v.one, exchanged, enough, pos));
            below = v.below;
            prepared = v.prepared;
          })
    | inr failed ↦
        rw (enough, failed) (IsSound-calls (before ++ record c { old_count = l.count } ∷ after) v)
  ]
]

read-IsSound : {l : Latch} → 0 < l.released → IsSound l → IsSound (read_awaiters l)
unfolding read_awaiters
read-IsSound {l} h v = record {
  chain = v.chain;
  chains = v.chain ∷ v.chains;
  linked = v.linked;
  held = one_more v.linked v.held;
  one = ground (arith, v.one, h);
  once = λ pos. v.once (omega arith);
  below = λ x. omega (arith, v.once (omega arith) x, chains-zero x v (ground (arith, v.one, h)));
  prepared = v.prepared;
}

resume-IsSound :
    {l : Latch} (before : List Pointer) (w : ℕ) (after : List Pointer)
    → l.resuming ≡ before ++ awaiter w ∷ after
    → IsSound l
    → IsSound (resume_round before w after l)
unfolding resume_round
resume-IsSound {l} before w after h v =
    let (rest, held, counts) =
      Chains-next before w after (subst (λ ps. Chains l.next_awaiter ps v.chains) h v.held) in
    let many : length l.resuming ≡ length before + suc (length after) =
      ap length h ∙ length-append before (awaiter w ∷ after) in
    let same_many = length-append before (l.next_awaiter w ∷ after) in
    record {
      chain = v.chain;
      chains = rest;
      linked = v.linked;
      held = held;
      one = omega (arith, v.one, many, same_many);
      once = λ pos. absurd (ground (arith, v.one, many, pos));
      below = λ x. ground (
        arith,
        v.below x,
        v.below w,
        counts x,
        counts w,
        weight-update_at waiting l.phase w running x,
      );
      prepared = prepared_phase w running (λ q e. cc e) v;
    }

Step-IsSound : {l m : Latch} → Step l m → IsSound l → IsSound m
unfolding await_ready load_head load_count
Step-IsSound {l} (ready w h) v = elim (Bool-cases (l.count == 0)) [
  | inl zero ↦ rw zero (IsSound-phase w running (ap waiting h) (λ q e. cc e) v)
  | inr counting ↦ rw counting (IsSound-phase w checked (ap waiting h) (λ q e. cc e) v)
]
Step-IsSound {l} (suspend w h) v =
    IsSound-phase w (testing l.awaiters) (ap waiting h) (λ q e. cc e) v
Step-IsSound {l} (test w old_head h) v = test-IsSound w old_head h v
Step-IsSound {l} (link spurious w old_head h) v = link-IsSound spurious w old_head h v
Step-IsSound {l} (call n) v = IsSound-calls _ v
Step-IsSound {l} (round spurious before c after h pos) v =
    round-IsSound spurious before c after pos v
Step-IsSound {l} (read h) v = read-IsSound h v
Step-IsSound {l} (resume before w after h) v = resume-IsSound before w after h v

new_latch-IsSound : (count : ℕ) → IsSound (new_latch count)
new_latch-IsSound count = record {
  chain = [];
  chains = [];
  linked = refl;
  held = no_chains;
  one = omega arith;
  once = λ h w. refl;
  below = λ w. omega arith;
  prepared = λ w p e. cc e;
}

pub Reach-IsSound : {count : ℕ} {l : Latch} → Reach (new_latch count) l → IsSound l
Reach-IsSound {count} start = new_latch-IsSound count
Reach-IsSound (later r st) = Step-IsSound st (Reach-IsSound r)
