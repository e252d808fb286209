-- ===== src/Streams/Queue.antt =====
-- The ring of applications/map/scheduler.hpp as a first-in first-out queue.
use coroutines.Base.{
  ℕ, suc, ◌+◌, ◌-◌, ◌%◌, ◌≤◌, ◌<◌, ◌≡◌, ◌≢◌, refl, subst, ◌∙◌, List, [], ◌∷◌, ◌++◌, ok, at,
  at-set_self, at-set_ne, set, length, length-set, length-append, length-replicate, ltb,
  if◌then◌else◌, Bool-cases, inl, inr, arith,
}
use native.Mathlib.Nat.{mod-eq_of_lt, mod_self}
use coroutines.Streams.Ring.{
  Slot, null_handle, stale, waiting, Ring, new_ring, schedule, remove_next_task, has_next,
}

-- The place in a buffer of `depth` for a count that runs to twice the depth.
abbrev pub place : ℕ → ℕ → ℕ
place depth i = if ltb i depth then i else i - depth

next-place : (depth i : ℕ) → i < depth → (i + 1) % depth ≡ place depth (i + 1)
next-place depth i h = elim (Bool-cases (ltb (i + 1) depth)) [
  | inl below ↦ rw below (mod-eq_of_lt (ground (arith, below)))
  | inr wraps ↦
      let e : i + 1 ≡ depth = ground (arith, wraps) in rw (wraps, e) (mod_self depth ∙ omega arith)
]

module _ {T : Type 0} where
  -- The frames wait in the buffer from `start` on, in order.
  abbrev pub Waits : List (Slot T) → ℕ → ℕ → List T → Type 0
  Waits buffer depth start [] = Unit {0}
  Waits buffer depth start (t ∷ ts) =
      (at buffer (place depth start) ≡ ok (waiting t)) × Waits buffer depth (suc start) ts

  -- The ring stands for a queue of frames, with one place free at least.
  pub record Queues (r : Ring T) (ts : List T) : Type 0 where
    pub sized : length r.buffer ≡ r.depth
    pub inside : r.tail < r.depth
    pub room : length ts < r.depth
    pub ends : r.head ≡ place r.depth (r.tail + length ts)
    pub waits : Waits r.buffer r.depth r.tail ts

  -- A write to another place leaves the frames.
  Waits-set :
      (buffer : List (Slot T)) (depth start i : ℕ) (s : Slot T) (ts : List T)
      → ((k : ℕ) → k < length ts → place depth (start + k) ≢ i)
      → Waits buffer depth start ts
      → Waits (set buffer i s) depth start ts
  Waits-set buffer depth start i s [] apart w = tt
  Waits-set buffer depth start i s (t ∷ ts) apart w =
      let first : i ≢ place depth start = λ e. apart 0 (omega arith) (ground (arith, e)) in
      (
        at-set_ne buffer i (place depth start) s first ∙ w.0,
        Waits-set buffer depth (suc start) i s ts
            (λ k h e. apart (suc k) (omega (arith, h)) (ground (arith, e))) w.1,
      )

  -- Past the end the places start again.
  Waits-wrap :
      (buffer : List (Slot T)) (depth start : ℕ) (ts : List T)
      → start + length ts ≤ depth
      → Waits buffer depth (depth + start) ts
      → Waits buffer depth start ts
  Waits-wrap buffer depth start [] h w = tt
  Waits-wrap buffer depth start (t ∷ ts) h w =
      let same_place : place depth (depth + start) ≡ place depth start = ground (arith, h) in
      (
        rw same_place at w.0,
        Waits-wrap buffer depth (suc start) ts (omega (arith, h))
            (subst (λ i. Waits buffer depth i ts) (omega arith) w.1),
      )

  Waits-append :
      (buffer : List (Slot T)) (depth start : ℕ) (ts : List T) (t : T)
      → Waits buffer depth start ts
      → at buffer (place depth (start + length ts)) ≡ ok (waiting t)
      → Waits buffer depth start (ts ++ t ∷ [])
  Waits-append buffer depth start [] t w e =
      (subst (λ i. at buffer (place depth i) ≡ ok (waiting t)) (omega arith) e, tt)
  Waits-append buffer depth start (u ∷ ts) t w e = (
    w.0,
    Waits-append buffer depth (suc start) ts t w.1
        (subst (λ i. at buffer (place depth i) ≡ ok (waiting t)) (omega arith) e),
  )

  Waits-from :
      (buffer : List (Slot T)) (depth tail : ℕ) (ts : List T)
      → tail < depth
      → length ts ≤ depth
      → Waits buffer depth (suc tail) ts
      → Waits buffer depth ((tail + 1) % depth) ts
  Waits-from buffer depth tail ts inside room w = elim (Bool-cases (ltb (tail + 1) depth)) [
    | inl below ↦
        let next : suc tail ≡ (tail + 1) % depth =
          ground (arith, next-place depth tail inside, below) in
        subst (λ i. Waits buffer depth i ts) next w
    | inr wraps ↦
        let next : 0 ≡ (tail + 1) % depth =
          ground (arith, next-place depth tail inside, wraps, inside) in
        subst (λ i. Waits buffer depth i ts) next
          (Waits-wrap buffer depth 0 ts (omega (arith, room))
            (subst (λ i. Waits buffer depth i ts) (ground (arith, wraps, inside)) w))
  ]

  pub new_ring-Queues : (depth : ℕ) → 0 < depth → Queues (new_ring depth) []
  unfolding new_ring
  new_ring-Queues depth h = record {
    sized = length-replicate depth null_handle;
    inside = h;
    room = h;
    ends = ground (arith, h);
    waits = tt;
  }

  pub schedule-Queues :
      {r : Ring T} {ts : List T} (t : T)
      → Queues r ts
      → length ts + 1 < r.depth
      → Queues (schedule t r) (ts ++ t ∷ [])
  unfolding schedule
  schedule-Queues {r} {ts} t q h =
      let longer = length-append ts (t ∷ []) in
      let below : r.head < r.depth = ground (arith, q.ends, q.inside, q.room) in
      record {
        sized = length-set r.buffer r.head (waiting t) ∙ q.sized;
        inside = q.inside;
        room = omega (arith, longer, h);
        ends = next-place r.depth r.head below ∙ ground (arith, longer, q.ends, q.inside, h);
        waits =
            Waits-append (set r.buffer r.head (waiting t)) r.depth r.tail ts t
              (Waits-set r.buffer r.depth r.tail r.head (waiting t) ts
                (λ k low e. ground (arith, q.ends, q.inside, q.room, low, e)) q.waits)
              (subst (λ i. at (set r.buffer r.head (waiting t)) i ≡ ok (waiting t)) q.ends
                (at-set_self r.buffer r.head (waiting t) (omega (arith, q.sized, below))));
      }

  pub remove_next_task-Queues :
      {r : Ring T} {ts : List T} (t : T)
      → Queues r (t ∷ ts)
      → (s : Ring T) × (remove_next_task r ≡ ok (t, s)) × Queues s ts × (s.depth ≡ r.depth)
  unfolding remove_next_task
  remove_next_task-Queues {r} {ts} t q =
      let here : place r.depth r.tail ≡ r.tail = ground (arith, q.inside) in
      let read : at r.buffer r.tail ≡ ok (waiting t) = rw here at q.waits.0 in
      let next = next-place r.depth r.tail q.inside in
      let s : Ring T = record r {
        buffer = set r.buffer r.tail stale;
        tail = (r.tail + 1) % r.depth;
      } in
      let rest =
        Waits-set r.buffer r.depth (suc r.tail) r.tail stale ts
          (λ k low e. ground (arith, q.inside, q.room, low, e)) q.waits.1 in
      (
        s,
        rw read,
        record {
          sized = length-set r.buffer r.tail stale ∙ q.sized;
          inside = ground (arith, next, q.inside);
          room = omega (arith, q.room);
          ends = ground (arith, next, q.ends, q.inside, q.room);
          waits = Waits-from s.buffer r.depth r.tail ts q.inside (omega (arith, q.room)) rest;
        },
        refl,
      )

  pub has_next-Queues : {r : Ring T} {ts : List T} → Queues r ts → has_next r ≡ ltb 0 (length ts)
  has_next-Queues {r} {ts} q = ground (arith, q.ends, q.inside, q.room)

  pub schedule-depth : (t : T) (r : Ring T) → (schedule t r).depth ≡ r.depth
  unfolding schedule
  schedule-depth t r = refl
