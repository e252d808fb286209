-- ===== src/Streams/Fifo.antt =====
-- applications/map/scheduler.hpp: sequences of `schedule` and `remove_next_task`.
use mathlib.Core.Option
use coroutines.Base.{
  ℕ, ◌+◌, ◌<◌, ◌≡◌, refl, ap, ◌∙◌, Option, none, some, List, [], ◌∷◌, ◌++◌, Result, ok, ◌>>=◌,
  length, ltb, if◌then◌else◌, Bool-cases, inl, inr, arith,
}
use coroutines.Streams.Ring.{Ring, new_ring, schedule, remove_next_task}
use coroutines.Streams.Queue.{
  Queues, new_ring-Queues, schedule-Queues, remove_next_task-Queues, schedule-depth,
}

-- A call of the scheduler.
pub data Call (T : Type 0) : Type 0 where
  puts : T → Call T
  takes : Call T

map-some :
    {A B : Type 0} (f : A → B) (o : Option A) (b : B)
    → Option.map f o ≡ some b
    → (a : A) × (o ≡ some a) × (f a ≡ b)
map-some f none b e = cc e
map-some f (some a) b e = (a, refl, cc)

new_ring-depth : (T : Type 0) (depth : ℕ) → (new_ring {T = T} depth).depth ≡ depth
unfolding new_ring
new_ring-depth T depth = refl

module _ {T : Type 0} where
  -- The calls on the ring, and the handles that they take.
  unfoldable pub ring_calls : List (Call T) → Ring T → Result (List T)
  ring_calls [] r = ok []
  ring_calls (puts t ∷ cs) r = ring_calls cs (schedule t r)
  ring_calls (takes ∷ cs) r = do (t, r') ← remove_next_task r; ts ← ring_calls cs r'; ok (t ∷ ts)

  -- The calls on a queue with room for fewer than `depth` handles, where none of them comes to a
  -- full queue or takes from an empty one.
  unfoldable pub queue_calls : ℕ → List (Call T) → List T → Option (List T)
  queue_calls depth [] waiting = some []
  queue_calls depth (puts t ∷ cs) waiting =
      let rest = queue_calls depth cs (waiting ++ t ∷ []) in
      if ltb (length waiting + 1) depth then rest else none
  queue_calls depth (takes ∷ cs) [] = none
  queue_calls depth (takes ∷ cs) (t ∷ waiting) =
      Option.map (λ ts. t ∷ ts) (queue_calls depth cs waiting)

  ring-queue :
      (cs : List (Call T)) (r : Ring T) (waiting ts : List T)
      → Queues r waiting
      → queue_calls r.depth cs waiting ≡ some ts
      → ring_calls cs r ≡ ok ts
  unfolding ring_calls queue_calls
  ring-queue [] r waiting ts q e = cc
  ring-queue (puts t ∷ cs) r waiting ts q e = elim (Bool-cases (ltb (length waiting + 1) r.depth)) [
    | inl fits ↦
        ring-queue cs (schedule t r) (waiting ++ t ∷ []) ts
          (schedule-Queues t q (ground (arith, fits)))
          (ap (λ d. queue_calls d cs (waiting ++ t ∷ [])) (schedule-depth t r) ∙ (rw fits at e))
    | inr full ↦ cc (rw full at e)
  ]
  ring-queue (takes ∷ cs) r [] ts q e = cc e
  ring-queue (takes ∷ cs) r (t ∷ waiting) ts q e =
      let (r', taken, q', same_depth) = remove_next_task-Queues t q in
      let (ts', e', whole) = map-some (λ us. t ∷ us) (queue_calls r.depth cs waiting) ts e in
      let rest =
        ring-queue cs r' waiting ts' q' (ap (λ d. queue_calls d cs waiting) same_depth ∙ e') in
      rw (taken, rest) (ap ok whole)

  -- On a new ring of a positive depth, any sequence of `schedule` and `remove_next_task` in which
  -- a queue with fewer waiting handles than the depth never overflows or runs empty takes from the
  -- ring, without a fault, the handles that the queue gives, in its order.
  pub fifo :
      (depth : ℕ) (cs : List (Call T)) (ts : List T)
      → 0 < depth
      → queue_calls depth cs [] ≡ some ts
      → ring_calls cs (new_ring depth) ≡ ok ts
  fifo depth cs ts some_room e =
      ring-queue cs (new_ring depth) [] ts (new_ring-Queues depth some_room)
        (ap (λ d. queue_calls d cs []) (new_ring-depth T depth) ∙ e)
