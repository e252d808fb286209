-- ===== src/Streams/Overflow.antt =====
-- The throttler over a ring that its tasks fill.
use coroutines.Base.{
  ℕ, ◌+◌, ◌-◌, ◌%◌, ◌^◌, ◌≤◌, ◌<◌, ◌≡◌, refl, false, List, [], ◌∷◌, Result, Returns, length, ◌==◌,
  arith,
}
use native.Mathlib.Nat.{mod-eq_of_lt, mod_self}
use coroutines.Streams.Ring.{schedule}
use coroutines.Streams.Throttle.{Turn, Streams, spawn, spawn_all}

-- As many tasks as the ring has places, under a limit that lets them all in: the head comes round
-- to the tail, and the ring counts as empty.
pub streams_overflow :
    {T O : Type 0} (body : T → Result (Turn T O)) (fuel : ℕ) (ts : List T) (s : Streams T O)
    → 0 < length ts
    → s.ring.head + length ts ≡ s.ring.depth
    → length ts ≤ s.limit
    → s.limit < 2 ^ 64
    → Returns
        (spawn_all body fuel ts s)
        λ s'. (s'.ring.head ≡ 0) × (s'.ring.tail ≡ s.ring.tail) × (s'.results ≡ s.results)
unfolding spawn_all spawn schedule
streams_overflow body fuel [] s some full fits small = absurd (omega arith)
streams_overflow {T} {O} body fuel (t ∷ []) s some full fits small =
    let free : (s.limit == 0) ≡ false = ground (arith, fits) in
    let wraps : s.ring.head + 1 ≡ s.ring.depth = full in
    let s' : Streams T O = record s {
      ring = schedule t s.ring;
      limit = (s.limit + 2 ^ 64 - 1) % 2 ^ 64;
    } in
    (s', rw free, (rw wraps (mod_self s.ring.depth), refl, refl))
streams_overflow {T} {O} body fuel (t ∷ u ∷ ts) s some full fits small =
    let free : (s.limit == 0) ≡ false = ground (arith, fits) in
    let s' : Streams T O = record s {
      ring = schedule t s.ring;
      limit = (s.limit + 2 ^ 64 - 1) % 2 ^ 64;
    } in
    let next : (s.ring.head + 1) % s.ring.depth ≡ s.ring.head + 1 =
      mod-eq_of_lt (omega (arith, full)) in
    let (s'', ran, ends) =
      streams_overflow body fuel (u ∷ ts) s' (omega arith) (omega (arith, next, full))
        (omega (arith, fits, small)) (omega arith) in
    (s'', rw free ran, ends)
