-- ===== src/Streams/Complete.antt =====
-- The throttler from the first `spawn` to the end of `run`: every coroutine returns once.
use mathlib.Core.List.Perm
use mathlib.Core.List.{Perm, append_assoc, append-nil}
use coroutines.Base.{
  ℕ, zero, suc, ◌+◌, ◌-◌, ◌%◌, ◌^◌, ◌≤◌, ◌<◌, ◌≡◌, refl, sym, ap, subst, subst₂, ◌∙◌, true, false,
  List, [], ◌∷◌, ◌++◌, Result, ok, err, ◌>>=◌, Returns, length, length-append, ◌==◌, ltb,
  Bool-cases, List-cases, inl, inr, arith,
}
use coroutines.Streams.Ring.{Ring, new_ring, schedule, remove_next_task, has_next}
use coroutines.Streams.Queue.{
  Queues, new_ring-Queues, schedule-Queues, remove_next_task-Queues, has_next-Queues,
  schedule-depth,
}
use coroutines.Streams.Throttle.{Turn, Streams, resume, spawn, spawn_all, run}
use coroutines.Streams.Turns.{
  Job, Outcome, frames, outs, total, frames-append, outs-append, total-append, length-frames, Sound,
  Sound-append, resume-Resumed,
}

-- A throttler of `n_streams` over an empty ring.
unfoldable pub new_streams : {T O : Type 0} → ℕ → ℕ → Streams T O
new_streams depth n_streams = record { ring = new_ring depth; limit = n_streams; results = [] }

module _ {T O : Type 0} (body : T → Result (Turn T O)) (depth n_streams : ℕ) where
  -- The coroutines that wait, and the limit that they leave; `expected` are the results to come
  -- and those that are there, in any order.
  pub record Busy (s : Streams T O) (expected : List O) (work : ℕ) : Type 0 where
    pub jobs : List (Job T O)
    pub sound : Sound body jobs
    pub queue : Queues s.ring (frames jobs)
    pub deep : s.ring.depth ≡ depth
    pub limited : s.limit + length jobs ≡ n_streams
    pub left : total jobs ≤ work
    pub same : Perm (s.results ++ outs jobs) expected

  -- The next coroutine is resumed.
  next-Busy :
      (fuel : ℕ) (s : Streams T O) (expected : List O) (work : ℕ) (k : Job T O)
      (ks : List (Job T O))
      → (b : Busy s expected work) → b.jobs ≡ k ∷ ks
      → n_streams < depth
      → n_streams < 2 ^ 64
      → work < fuel
      → Returns
          (do
            (next, ring) ← remove_next_task s.ring
            resume body fuel next (record s { ring = ring }))
          λ s'.
            (b' : Busy s' expected work) × (length b'.jobs ≡ length ks) × (s'.limit ≡ s.limit + 1)
  next-Busy fuel s expected work k ks b e few small enough =
      let sound = subst (Sound body) e b.sound in
      let many = ap length e in
      let amount = ap total e in
      let queue = subst (λ js. Queues s.ring (frames js)) e b.queue in
      let (ring, taken, queue', same_depth) = remove_next_task-Queues k.task queue in
      let (s', ran, r) =
        resume-Resumed body fuel k.task k.out k.steps ks (record s { ring = ring }) sound.0 sound.1
          queue' (omega (arith, same_depth, b.deep, b.limited, many, few))
          (omega (arith, amount, b.left, enough)) in
      let limit : s'.limit ≡ s.limit + 1 = omega (arith, r.limit, b.limited, many, small) in
      (
        s',
        rw taken ran,
        (
          record {
            jobs = r.jobs;
            sound = r.sound;
            queue = r.queue;
            deep = r.depth ∙ same_depth ∙ b.deep;
            limited = omega (arith, limit, r.many, b.limited, many);
            left = omega (arith, r.work, amount, b.left);
            same = Perm.trans r.same (subst (λ js. Perm (s.results ++ outs js) expected) e b.same);
          },
          r.many,
          limit,
        ),
      )

  -- A new coroutine goes to the end of the queue.
  schedule-Busy :
      (s : Streams T O) (expected : List O) (work : ℕ) (j : Job T O)
      → Outcome body j.task j.out j.steps
      → Busy s expected work
      → 0 < s.limit
      → n_streams < depth
      → n_streams < 2 ^ 64
      → Busy
          (record s { ring = schedule j.task s.ring; limit = (s.limit + 2 ^ 64 - 1) % 2 ^ 64 })
          (expected ++ j.out ∷ [])
          (work + j.steps)
  schedule-Busy s expected work j oc b free few small = record {
    jobs = b.jobs ++ j ∷ [];
    sound = Sound-append body b.jobs (j ∷ []) b.sound (oc, tt);
    queue = subst (Queues (schedule j.task s.ring)) (sym (frames-append b.jobs (j ∷ []))) (
        schedule-Queues j.task b.queue
          (omega (arith, length-frames b.jobs, b.limited, b.deep, free, few)));
    deep = schedule-depth j.task s.ring ∙ b.deep;
    limited = omega (arith, length-append b.jobs (j ∷ []), b.limited, free, small);
    left = omega (arith, total-append b.jobs (j ∷ []), b.left);
    same =
        subst (λ l. Perm l (expected ++ j.out ∷ []))
          (append_assoc s.results (outs b.jobs) (j.out ∷ [])
            ∙ ap (λ os. s.results ++ os) (sym (outs-append b.jobs (j ∷ []))))
          (Perm.append_right (j.out ∷ []) b.same);
  }

  spawn-Busy :
      (fuel : ℕ) (s : Streams T O) (expected : List O) (work : ℕ) (j : Job T O)
      → Outcome body j.task j.out j.steps
      → Busy s expected work
      → 0 < n_streams
      → n_streams < depth
      → n_streams < 2 ^ 64
      → work < fuel
      → Returns (spawn body fuel j.task s) λ s'. Busy s' (expected ++ j.out ∷ []) (work + j.steps)
  unfolding spawn
  spawn-Busy fuel s expected work j oc b some_streams few small enough =
      elim (Bool-cases (s.limit == 0)) [
        | inl none_free ↦ elim (List-cases b.jobs) [
          | inl nobody ↦
              absurd (ground (arith, none_free, b.limited, ap length nobody, some_streams))
          | inr (k, ks, e) ↦
              let (s', ran, (b', many, limit)) =
                next-Busy fuel s expected work k ks b e few small enough in
              (
                _,
                rw (none_free, ran),
                schedule-Busy s' expected work j oc b' (omega (arith, limit)) few small,
              )
        ]
        | inr free ↦
            (_, rw free, schedule-Busy s expected work j oc b (ground (arith, free)) few small)
      ]

  spawn_all-Busy :
      (fuel : ℕ) (s : Streams T O) (expected : List O) (work : ℕ) (js : List (Job T O))
      → Sound body js
      → Busy s expected work
      → 0 < n_streams
      → n_streams < depth
      → n_streams < 2 ^ 64
      → work + total js < fuel
      → Returns
          (spawn_all body fuel (frames js) s)
          λ s'. Busy s' (expected ++ outs js) (work + total js)
  unfolding spawn_all
  spawn_all-Busy fuel s expected work [] sound b some_streams few small enough =
      (s, refl, subst₂ (Busy s) (sym (append-nil expected)) (omega arith) b)
  spawn_all-Busy fuel s expected work (j ∷ js) sound b some_streams few small enough =
      let (s', spawned, b') =
        spawn-Busy fuel s expected work j sound.0 b some_streams few small
          (omega (arith, enough)) in
      let (s'', ran, b'') =
        spawn_all-Busy fuel s' (expected ++ j.out ∷ []) (work + j.steps) js sound.1 b' some_streams
          few small (omega (arith, enough)) in
      (
        s'',
        rw spawned ran,
        subst₂ (Busy s'') (append_assoc expected (j.out ∷ []) (outs js)) (omega arith) b'',
      )

  pub run-idle :
      (rounds fuel : ℕ) (s : Streams T O)
      → has_next s.ring ≡ false
      → run body (suc rounds) fuel s ≡ ok s
  unfolding run
  run-idle rounds fuel s idle = rw (idle, run)

  run-next :
      (rounds fuel : ℕ) (s s' : Streams T O)
      → has_next s.ring ≡ true
      → (do
        (next, ring) ← remove_next_task s.ring
        resume body fuel next (record s { ring = ring }))
        ≡ ok s'
      → run body (suc rounds) fuel s ≡ run body rounds fuel s'
  unfolding run
  run-next rounds fuel s s' busy ran = rw (busy, run) (cut (remove_next_task s.ring) ran)
    where
      cut :
          (m : Result (T × Ring T))
          → (m >>= λ p. resume body fuel p.0 (record s { ring = p.1 })) ≡ ok s'
          → (m >>= λ p. resume body fuel p.0 (record s { ring = p.1 }) >>= run body rounds fuel)
            ≡ run body rounds fuel s'
      cut (ok p) e = rw e
      cut (err f) e = cc e

  run-Busy :
      (rounds fuel : ℕ) (s : Streams T O) (expected : List O) (work : ℕ)
      → (b : Busy s expected work) → length b.jobs < rounds
      → n_streams < depth
      → n_streams < 2 ^ 64
      → work < fuel
      → Returns
          (run body rounds fuel s)
          λ s'. Perm s'.results expected × (s'.limit ≡ n_streams) × (has_next s'.ring ≡ false)
  run-Busy zero fuel s expected work b most few small enough = absurd (omega arith)
  run-Busy (suc rounds) fuel s expected work b most few small enough = elim (List-cases b.jobs) [
    | inl nobody ↦
        let idle : has_next s.ring ≡ false =
          has_next-Queues b.queue ∙ ap (ltb 0) (length-frames b.jobs ∙ ap length nobody) in
        (
          s,
          run-idle rounds fuel s idle,
          (
            subst (λ l. Perm l expected) (append-nil s.results)
                (subst (λ js. Perm (s.results ++ outs js) expected) nobody b.same),
            omega (arith, b.limited, ap length nobody),
            idle,
          ),
        )
    | inr (k, ks, e) ↦
        let busy : has_next s.ring ≡ true =
          has_next-Queues b.queue
          ∙ ap (ltb 0) (length-frames b.jobs ∙ ap length e)
          ∙ ground arith in
        let (s', ran, (b', many, limit)) =
          next-Busy fuel s expected work k ks b e few small enough in
        let (s'', ran', ended) =
          run-Busy rounds fuel s' expected work b' (omega (arith, many, most, ap length e)) few
            small enough in
        (s'', run-next rounds fuel s s' busy ran ∙ ran', ended)
  ]

  new_streams-depth : (new_streams {T = T} {O = O} depth n_streams).ring.depth ≡ depth
  unfolding new_streams new_ring
  new_streams-depth = refl

  -- For coroutines that each return after a bounded number of suspensions, with at least one
  -- stream, fewer streams than places and than 2 ^ 64, and fuel above the sum of those bounds,
  -- spawning all of them and running the queue ends without a fault: each has returned its result
  -- once, in some order, the limit is that of the start, and the queue is empty.
  pub streams-Perm :
      (rounds fuel : ℕ) (js : List (Job T O))
      → Sound body js
      → 0 < n_streams
      → n_streams < depth
      → n_streams < 2 ^ 64
      → total js < fuel
      → n_streams < rounds
      → Returns
          (do
            s ← spawn_all body fuel (frames js) (new_streams depth n_streams)
            run body rounds fuel s)
          λ s. Perm s.results (outs js) × (s.limit ≡ n_streams) × (has_next s.ring ≡ false)
  unfolding new_streams
  streams-Perm rounds fuel js sound some_streams few small enough most =
      let start : Streams T O = new_streams depth n_streams in
      let b : Busy start [] 0 = record {
        jobs = [];
        sound = tt;
        queue = new_ring-Queues depth (omega (arith, some_streams, few));
        deep = new_streams-depth;
        limited = omega arith;
        left = omega arith;
        same = Perm.refl [];
      } in
      let (s, spawned, b') =
        spawn_all-Busy fuel start [] 0 js sound b some_streams few small (omega (arith, enough)) in
      let (s', ran, ended) =
        run-Busy rounds fuel s (outs js) (0 + total js) b' (omega (arith, b'.limited, most)) few
          small (omega (arith, enough)) in
      (s', rw spawned ran, ended)
