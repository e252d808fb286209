-- ===== src/Streams/Turns.antt =====
-- One `resume()` of a coroutine of the throttler: what it does to the coroutines that wait.
use mathlib.Core.List.Perm
use coroutines.Base.{
  ℕ, zero, suc, ◌+◌, ◌%◌, ◌^◌, ◌≤◌, ◌<◌, ◌≡◌, refl, sym, ap, subst, ◌∙◌, List, [], ◌∷◌, ◌++◌,
  Result, ok, Returns, length, length-append, arith,
}
use mathlib.Core.List.{Perm, append_assoc, perm_append_singleton}
use coroutines.Streams.Ring.{Ring, schedule}
use coroutines.Streams.Queue.{Queues, schedule-Queues, remove_next_task-Queues, schedule-depth}
use coroutines.Streams.Throttle.{Turn, suspends, returns, Streams, on_task_complete, resume}

-- A frame with the result of the coroutine, and a bound for the times it suspends.
pub record Job (T O : Type 0) : Type 0 where
  pub task : T
  pub out : O
  pub steps : ℕ

-- Run alone, the coroutine returns a result after so many suspensions at most.
pub data Outcome {T O : Type 0} (body : T → Result (Turn T O)) : T → O → ℕ → Type 0 where
  done : {t : T} {o : O} {n : ℕ} → body t ≡ ok (returns o) → Outcome body t o n
  more :
      {t u : T} {o : O} {n : ℕ}
      → body t ≡ ok (suspends u)
      → Outcome body u o n
      → Outcome body t o (suc n)

module _ {T O : Type 0} where
  abbrev pub frames : List (Job T O) → List T
  frames [] = []
  frames (j ∷ js) = j.task ∷ frames js

  abbrev pub outs : List (Job T O) → List O
  outs [] = []
  outs (j ∷ js) = j.out ∷ outs js

  abbrev pub total : List (Job T O) → ℕ
  total [] = 0
  total (j ∷ js) = j.steps + total js

  pub frames-append : (js ks : List (Job T O)) → frames (js ++ ks) ≡ frames js ++ frames ks
  frames-append [] ks = refl
  frames-append (j ∷ js) ks = ap (λ ts. j.task ∷ ts) (frames-append js ks)

  pub outs-append : (js ks : List (Job T O)) → outs (js ++ ks) ≡ outs js ++ outs ks
  outs-append [] ks = refl
  outs-append (j ∷ js) ks = ap (λ os. j.out ∷ os) (outs-append js ks)

  pub total-append : (js ks : List (Job T O)) → total (js ++ ks) ≡ total js + total ks
  total-append [] ks = omega arith
  total-append (j ∷ js) ks = omega (arith, total-append js ks)

  pub length-frames : (js : List (Job T O)) → length (frames js) ≡ length js
  length-frames [] = refl
  length-frames (j ∷ js) = ap suc (length-frames js)

module _ {T O : Type 0} (body : T → Result (Turn T O)) where
  -- Each job is what its coroutine does.
  abbrev pub Sound : List (Job T O) → Type 0
  Sound [] = Unit {0}
  Sound (j ∷ js) = Outcome body j.task j.out j.steps × Sound js

  pub Sound-append : (js ks : List (Job T O)) → Sound js → Sound ks → Sound (js ++ ks)
  Sound-append [] ks p q = q
  Sound-append (j ∷ js) ks p q = (p.0, Sound-append js ks p.1 q)

  -- A call of `resume()` on the coroutine of result `out`, while `js` wait, ends with as many
  -- waiting, one more result, and the limit raised by one.
  pub record Resumed (s s' : Streams T O) (out : O) (steps : ℕ) (js : List (Job T O)) : Type 0 where
    pub jobs : List (Job T O)
    pub sound : Sound jobs
    pub queue : Queues s'.ring (frames jobs)
    pub depth : s'.ring.depth ≡ s.ring.depth
    pub many : length jobs ≡ length js
    pub limit : s'.limit ≡ (s.limit + 1) % 2 ^ 64
    pub work : total jobs ≤ steps + total js
    pub same : Perm (s'.results ++ outs jobs) (s.results ++ out ∷ outs js)

  returns-Resumed :
      (s : Streams T O) (out : O) (steps : ℕ) (js : List (Job T O))
      → Sound js
      → Queues s.ring (frames js)
      → Resumed s (on_task_complete body out s) out steps js
  returns-Resumed s out steps js sound q = record {
    jobs = js;
    sound = sound;
    queue = q;
    depth = refl;
    many = refl;
    limit = refl;
    work = omega arith;
    same =
        subst (λ l. Perm l (s.results ++ out ∷ outs js))
          (sym (append_assoc s.results (out ∷ []) (outs js))) (Perm.refl _);
  }

  -- The coroutine at the head goes on in place of one that went to the end.
  Resumed-turn :
      (s : Streams T O) (ring : Ring T) (s' : Streams T O) (t : T) (o : O) (n : ℕ) (k : Job T O)
      (ks : List (Job T O))
      → ring.depth ≡ s.ring.depth
      → Resumed
          (record s { ring = ring })
          s'
          k.out
          k.steps
          (ks ++ record { task = t; out = o; steps = n } ∷ [])
      → Resumed s s' o (suc n) (k ∷ ks)
  Resumed-turn s ring s' t o n k ks e r =
      let last : Job T O = record { task = t; out = o; steps = n } in
      record {
        jobs = r.jobs;
        sound = r.sound;
        queue = r.queue;
        depth = r.depth ∙ e;
        many = r.many ∙ length-append ks (last ∷ []) ∙ omega arith;
        limit = r.limit;
        work = omega (arith, r.work, total-append ks (last ∷ []));
        same = Perm.trans r.same (
            Perm.append_left s.results (
              subst (λ l. Perm (k.out ∷ l) (o ∷ k.out ∷ outs ks)) (sym (outs-append ks (last ∷ [])))
                (perm_append_singleton o (k.out ∷ outs ks))));
      }

  Resumed-alone :
      (s : Streams T O) (ring : Ring T) (s' : Streams T O) (o : O) (n : ℕ)
      → ring.depth ≡ s.ring.depth
      → Resumed (record s { ring = ring }) s' o n []
      → Resumed s s' o (suc n) []
  Resumed-alone s ring s' o n e r = record {
    jobs = r.jobs;
    sound = r.sound;
    queue = r.queue;
    depth = r.depth ∙ e;
    many = r.many;
    limit = r.limit;
    work = omega (arith, r.work);
    same = r.same;
  }

  pub resume-Resumed :
      (fuel : ℕ) (t : T) (o : O) (n : ℕ) (js : List (Job T O)) (s : Streams T O)
      → Outcome body t o n
      → Sound js
      → Queues s.ring (frames js)
      → length js + 1 < s.ring.depth
      → n + total js < fuel
      → Returns (resume body fuel t s) λ s'. Resumed s s' o n js
  unfolding resume
  resume-Resumed zero t o n js s oc sound q room enough = absurd (omega arith)
  resume-Resumed (suc fuel) t o n js s (done e) sound q room enough =
      (on_task_complete body o s, rw e, returns-Resumed s o n js sound q)
  resume-Resumed (suc fuel) t o (suc n) [] s (more {u = u} e oc) sound q room enough =
      let (ring, taken, q', depth) = remove_next_task-Queues u (schedule-Queues u q room) in
      let same_depth = depth ∙ schedule-depth u s.ring in
      let (s', run, r) =
        resume-Resumed fuel u o n [] (record s { ring = ring }) oc tt q' (rw same_depth room)
          (omega (arith, enough)) in
      (s', rw (e, taken) run, Resumed-alone s ring s' o n same_depth r)
  resume-Resumed (suc fuel) t o (suc n) (k ∷ ks) s (more {u = u} e oc) sound q room enough =
      let last : Job T O = record { task = u; out = o; steps = n } in
      let queued =
        subst (Queues (schedule u s.ring))
          (sym (ap (λ ts. k.task ∷ ts) (frames-append ks (last ∷ []))))
          (schedule-Queues u q (omega (arith, room, length-frames ks))) in
      let (ring, taken, q', depth) = remove_next_task-Queues k.task queued in
      let same_depth = depth ∙ schedule-depth u s.ring in
      let (s', run, r) =
        resume-Resumed fuel k.task k.out k.steps (ks ++ last ∷ []) (record s { ring = ring })
          sound.0 (Sound-append ks (last ∷ []) sound.1 (oc, tt)) q'
          (omega (arith, room, same_depth, length-append ks (last ∷ [])))
          (omega (arith, enough, total-append ks (last ∷ []))) in
      (s', rw (e, taken) run, Resumed-turn s ring s' u o n k ks same_depth r)
