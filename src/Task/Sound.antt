-- ===== src/Task/Sound.antt =====
-- libcoro/include/libcoro/task.hpp: when the awaiting coroutine goes on, and with what.
use coroutines.Base.{
  ℕ, ◌+◌, ◌-◌, ◌≤◌, ◌≡◌, ◌≢◌, refl, ap, Bool, true, false, if◌then◌else◌, Bool-cases, inl, inr,
  arith, subst,
}
use coroutines.Task.Core.{
  Child, active, waiting, ended, finished, Parent, calling, outside, unready, inside, resumed,
  stored, suspended, continues, Outcome, empty, value, exception, Task, new_task, done, returned,
  suspend, return_value, final_suspend, resume_child, wake, await_ready, await_suspend,
  set_continuation, exchange_state, destroy, asserts, result, await_resume,
}
use coroutines.Task.Steps.{
  Step, suspends, ends, finishes, wakes, asks, awaits, stores, exchanges, destroys, Reach, start,
  later,
}

-- The states in numbers.
abbrev bit : Bool → ℕ
bit true = 1
bit false = 0

abbrev is_done : Child → ℕ
is_done active = 0
is_done waiting = 0
is_done ended = 1
is_done finished = 1

abbrev pub is_over : Child → ℕ
is_over active = 0
is_over waiting = 0
is_over ended = 0
is_over finished = 1

abbrev is_full : {T E : Type 0} → Outcome T E → ℕ
is_full empty = 0
is_full (value v) = 1
is_full (exception e) = 1

abbrev sleeps : Parent → ℕ
sleeps calling = 0
sleeps outside = 0
sleeps unready = 0
sleeps inside = 0
sleeps resumed = 0
sleeps stored = 0
sleeps suspended = 1
sleeps continues = 0

abbrev goes_on : Parent → ℕ
goes_on calling = 0
goes_on outside = 0
goes_on unready = 0
goes_on inside = 0
goes_on resumed = 0
goes_on stored = 0
goes_on suspended = 0
goes_on continues = 1

abbrev is_stored : Parent → ℕ
is_stored calling = 0
is_stored outside = 0
is_stored unready = 0
is_stored inside = 0
is_stored resumed = 0
is_stored stored = 1
is_stored suspended = 0
is_stored continues = 0

record IsSound {T E : Type 0} (s : Task T E) : Type 0 where
  full : is_done s.child ≤ is_full s.stored_result
  handle : sleeps s.parent ≤ bit s.continuation_handle
  set : sleeps s.parent ≤ bit s.state
  waits : sleeps s.parent + is_over s.child ≤ 1
  complete : goes_on s.parent ≤ is_done s.child
  claimed : bit s.state ≤ is_over s.child + sleeps s.parent
  over : is_over s.child ≤ bit s.state
  ready : is_stored s.parent ≤ bit s.continuation_handle
  once : s.resumptions ≤ is_over s.child

returned-same :
    (p : Parent)
    → (sleeps (returned p) ≡ sleeps p)
      × (goes_on (returned p) ≡ goes_on p)
      × (is_stored (returned p) ≡ is_stored p)
returned-same calling = (refl, refl, refl)
returned-same outside = (refl, refl, refl)
returned-same unready = (refl, refl, refl)
returned-same inside = (refl, refl, refl)
returned-same resumed = (refl, refl, refl)
returned-same stored = (refl, refl, refl)
returned-same suspended = (refl, refl, refl)
returned-same continues = (refl, refl, refl)

abbrev answers : Child → Parent
answers c = if done c then continues else unready

answers-goes_on :
    (c : Child)
    → (sleeps (answers c) ≡ 0) × (is_stored (answers c) ≡ 0) × (goes_on (answers c) ≤ is_done c)
answers-goes_on active = (refl, refl, omega arith)
answers-goes_on waiting = (refl, refl, omega arith)
answers-goes_on ended = (refl, refl, omega arith)
answers-goes_on finished = (refl, refl, omega arith)

is_over-done : (c : Child) → is_over c ≤ is_done c
is_over-done active = omega arith
is_over-done waiting = omega arith
is_over-done ended = omega arith
is_over-done finished = omega arith

is_full-ne : {T E : Type 0} (o : Outcome T E) → o ≢ empty → is_full o ≡ 1
is_full-ne empty h = absurd (h refl)
is_full-ne (value v) h = refl
is_full-ne (exception e) h = refl

bit-set : (b : Bool) → 1 ≤ bit b → b ≡ true
bit-set true l = refl
bit-set false l = absurd (omega (arith, l))

is_done-done : (c : Child) → 1 ≤ is_done c → done c ≡ true
is_done-done active l = absurd (omega (arith, l))
is_done-done waiting l = absurd (omega (arith, l))
is_done-done ended l = refl
is_done-done finished l = refl

module _ {T E : Type 0} where
  -- What the invariant does not read.
  apart-IsSound :
      (s : Task T E) (w : ℕ) (f u : Bool)
      → IsSound s
      → IsSound (record s { wakes = w; frame = f; undefined = u })
  apart-IsSound s w f u v = record {
    full = v.full;
    handle = v.handle;
    set = v.set;
    waits = v.waits;
    complete = v.complete;
    claimed = v.claimed;
    over = v.over;
    ready = v.ready;
    once = v.once;
  }

  -- The awaiting coroutine neither falls asleep nor stores its handle.
  moved-IsSound :
      (s : Task T E) (p : Parent)
      → sleeps p ≡ 0
      → sleeps s.parent ≡ 0
      → is_stored p ≡ 0
      → goes_on p ≤ is_done s.child
      → IsSound s
      → IsSound (record s { parent = p })
  moved-IsSound s p e f g d v = record {
    full = v.full;
    handle = omega (arith, e);
    set = omega (arith, e);
    waits = omega (arith, e, f, v.waits);
    complete = d;
    claimed = omega (arith, e, f, v.claimed);
    over = v.over;
    ready = omega (arith, g);
    once = v.once;
  }

  -- A resumption of the task's coroutine.
  resume_child-IsSound :
      (c : Child) (s : Task T E) → s.child ≡ c → IsSound s → IsSound (resume_child c s)
  unfolding resume_child
  resume_child-IsSound active s e v = apart-IsSound s s.wakes s.frame true v
  resume_child-IsSound waiting s e v = record {
    full = omega arith;
    handle = v.handle;
    set = v.set;
    waits = omega (arith, v.waits);
    complete = omega (arith, v.complete, ap is_done e);
    claimed = omega (arith, v.claimed, ap is_over e);
    over = omega arith;
    ready = v.ready;
    once = omega (arith, v.once, ap is_over e);
  }
  resume_child-IsSound ended s e v = apart-IsSound s s.wakes s.frame true v
  resume_child-IsSound finished s e v = apart-IsSound s s.wakes s.frame true v

  Step-IsSound : {s t : Task T E} → Step s t → IsSound s → IsSound t
  unfolding suspend return_value final_suspend wake await_ready await_suspend set_continuation
      exchange_state destroy
  Step-IsSound {s} (suspends u h) v =
      let (sl, go, st) = returned-same s.parent in
      record {
        full = omega arith;
        handle = omega (arith, v.handle, sl);
        set = omega (arith, v.set, sl);
        waits = omega (arith, v.waits, sl);
        complete = omega (arith, v.complete, go, ap is_done h);
        claimed = omega (arith, v.claimed, sl, ap is_over h);
        over = omega arith;
        ready = omega (arith, v.ready, st);
        once = omega (arith, v.once, ap is_over h);
      }
  Step-IsSound {s} (ends o u h ne) v = record {
    full = omega (arith, is_full-ne o ne);
    handle = v.handle;
    set = v.set;
    waits = omega (arith, v.waits);
    complete = omega (arith, v.complete, ap is_done h);
    claimed = omega (arith, v.claimed, ap is_over h);
    over = omega arith;
    ready = v.ready;
    once = omega (arith, v.once, ap is_over h);
  }
  Step-IsSound {s} (finishes u h) v =
      let (sl, go, st) = returned-same s.parent in
      let d = ap is_done h in
      let o = ap is_over h in
      elim (Bool-cases s.frame) [
        | inr gone ↦ rw (gone) (apart-IsSound s s.wakes false true v)
        | inl there ↦ elim (Bool-cases s.state) [
          | inl taken ↦
              rw (there, taken)
                record {
                  full = omega (arith, v.full, d);
                  handle = omega arith;
                  set = omega arith;
                  waits = omega arith;
                  complete = omega arith;
                  claimed = omega arith;
                  over = omega arith;
                  ready = omega arith;
                  once = omega (arith, v.once, o);
                }
          | inr free ↦
              let asleep : sleeps s.parent ≤ 0 = subst (λ b. sleeps s.parent ≤ bit b) free v.set in
              rw (there, free)
                record {
                  full = omega (arith, v.full, d);
                  handle = omega (arith, asleep, sl);
                  set = omega (arith, asleep, sl);
                  waits = omega (arith, asleep, sl);
                  complete = omega (arith, v.complete, go, d);
                  claimed = omega arith;
                  over = omega arith;
                  ready = omega (arith, v.ready, st);
                  once = omega (arith, v.once, o);
                }
        ]
      ]
  Step-IsSound {s} (wakes u some) v =
      resume_child-IsSound s.child _ refl (apart-IsSound s (s.wakes - 1) s.frame s.undefined v)
  Step-IsSound {s} (asks u h) v =
      let (sl, st, go) = answers-goes_on s.child in
      moved-IsSound s (answers s.child) sl (ap sleeps h) st go v
  Step-IsSound {s} (awaits u h) v =
      resume_child-IsSound s.child _ refl
        (moved-IsSound s inside refl (ap sleeps h) refl (omega arith) v)
  Step-IsSound {s} (stores u h) v = record {
    full = v.full;
    handle = omega (arith, ap sleeps h);
    set = omega arith;
    waits = omega (arith, v.waits);
    complete = omega arith;
    claimed = omega (arith, v.claimed, ap sleeps h);
    over = v.over;
    ready = omega arith;
    once = v.once;
  }
  Step-IsSound {s} (exchanges u h) v = elim (Bool-cases s.state) [
    | inl taken ↦
        let over : 1 ≤ is_over s.child + sleeps s.parent =
          subst (λ b. bit b ≤ is_over s.child + sleeps s.parent) taken v.claimed in
        let d = is_over-done s.child in
        rw (taken) record {
          full = v.full;
          handle = omega arith;
          set = omega arith;
          waits = omega (arith, v.waits);
          complete = omega (arith, over, d, ap sleeps h);
          claimed = omega (arith, over, ap sleeps h);
          over = omega (arith, v.waits);
          ready = omega arith;
          once = v.once;
        }
    | inr free ↦
        let running : is_over s.child ≤ 0 = subst (λ b. is_over s.child ≤ bit b) free v.over in
        rw (free) record {
          full = v.full;
          handle = omega (arith, v.ready, ap is_stored h);
          set = omega arith;
          waits = omega (arith, running);
          complete = omega arith;
          claimed = omega arith;
          over = omega (arith, running);
          ready = omega arith;
          once = v.once;
        }
  ]
  Step-IsSound {s} (destroys u h) v = apart-IsSound s s.wakes false s.undefined v

  new_task-IsSound : IsSound (new_task {T = T} {E = E})
  new_task-IsSound = record {
    full = omega arith;
    handle = omega arith;
    set = omega arith;
    waits = omega arith;
    complete = omega arith;
    claimed = omega arith;
    over = omega arith;
    ready = omega arith;
    once = omega arith;
  }

  Reach-IsSound : {t : Task T E} → Reach (new_task {T = T} {E = E}) t → IsSound t
  Reach-IsSound start = new_task-IsSound
  Reach-IsSound (later r w) = Step-IsSound w (Reach-IsSound r)

  full-asserts : (o : Outcome T E) → 1 ≤ is_full o → result o ≢ asserts
  full-asserts empty l = absurd (omega (arith, l))
  full-asserts (value v) l = λ e. cc e
  full-asserts (exception x) l = λ e. cc e

  -- What the awaiting coroutine relies on where it is suspended, and where it goes on.
  abbrev pub Answered : Parent → Task T E → Type 0
  Answered calling t = Unit
  Answered outside t = Unit
  Answered unready t = Unit
  Answered inside t = Unit
  Answered resumed t = Unit
  Answered stored t = Unit
  Answered suspended t = (t.continuation_handle ≡ true) × (t.state ≡ true) × (t.child ≢ finished)
  Answered continues t = (done t.child ≡ true) × (await_resume t ≢ asserts)

  IsSound-Answered : {t : Task T E} (p : Parent) → t.parent ≡ p → IsSound t → Answered p t
  unfolding await_resume
  IsSound-Answered calling p v = tt
  IsSound-Answered outside p v = tt
  IsSound-Answered unready p v = tt
  IsSound-Answered inside p v = tt
  IsSound-Answered resumed p v = tt
  IsSound-Answered stored p v = tt
  IsSound-Answered {t} suspended p v = (
    bit-set t.continuation_handle (omega (arith, v.handle, ap sleeps p)),
    bit-set t.state (omega (arith, v.set, ap sleeps p)),
    λ e. absurd (omega (arith, v.waits, ap sleeps p, ap is_over e)),
  )
  IsSound-Answered {t} continues p v = (
    is_done-done t.child (omega (arith, v.complete, ap goes_on p)),
    full-asserts t.stored_result (omega (arith, v.full, v.complete, ap goes_on p)),
  )

  -- In every state that an interleaving reaches from a new task: if the awaiting coroutine is
  -- suspended, its handle is stored, the state is set and the end of the task is still to come; if
  -- it goes on past the `co_await`, the task is done and `await_resume` returns its value or
  -- rethrows its exception, without a failed assertion; and `final_suspend` resumed it at most
  -- once, and not before the end of the task.
  pub resumed_with_result :
      {t : Task T E}
      → Reach (new_task {T = T} {E = E}) t
      → Answered t.parent t × (t.resumptions ≤ is_over t.child)
  resumed_with_result {t} r = let v = Reach-IsSound r in (IsSound-Answered t.parent refl v, v.once)
