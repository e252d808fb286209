-- ===== src/Task/Stale.antt =====
-- libcoro/include/libcoro/task.hpp: `await_suspend` resumes a task whose body waits for something
-- else, and what is due to it is still to come.
use coroutines.Base.{
  ℕ, ◌+◌, ◌-◌, ◌≤◌, ◌<◌, ◌≡◌, refl, ap, Bool, true, false, Bool-cases, ◌⊎◌, inl, inr, arith,
}
use coroutines.Task.Core.{
  Child, active, waiting, ended, finished, unready, inside, Task, new_task, suspend, return_value,
  final_suspend, resume_child, wake, await_ready, await_suspend, set_continuation, exchange_state,
  destroy,
}
use coroutines.Task.Steps.{
  Step, suspends, ends, finishes, wakes, asks, awaits, stores, exchanges, destroys, Reach, start,
  later,
}

abbrev waits : Child → ℕ
waits active = 0
waits waiting = 1
waits ended = 0
waits finished = 0

-- Undefined behaviour, as more resumptions than any task waits for.
abbrev lost : Bool → ℕ
lost true = 2
lost false = 0

-- A coroutine that waits has a resumption due to it; `n` of them are due to nobody.
abbrev Due : {T E : Type 0} → ℕ → Task T E → Type 0
Due n s = waits s.child + n ≤ s.wakes + lost s.undefined

waits-bound : (c : Child) → waits c ≤ 1
waits-bound active = omega arith
waits-bound waiting = omega arith
waits-bound ended = omega arith
waits-bound finished = omega arith

module _ {T E : Type 0} where
  -- A resumption by what the coroutine waits for takes the one that is due.
  woken-Due :
      (n : ℕ) (c : Child) (s : Task T E)
      → n ≤ 1
      → s.undefined ≡ false
      → 0 < s.wakes
      → waits c + n ≤ s.wakes
      → Due n (resume_child c (record s { wakes = s.wakes - 1 }))
  unfolding resume_child
  woken-Due n active s l u w d = omega (arith, waits-bound s.child)
  woken-Due n waiting s l u w d = omega (arith, ap lost u)
  woken-Due n ended s l u w d = omega (arith, waits-bound s.child)
  woken-Due n finished s l u w d = omega (arith, waits-bound s.child)

  -- A resumption by the awaiting coroutine takes none.
  resumed-Due :
      (n m : ℕ) (c : Child) (s : Task T E)
      → m ≤ 1
      → m ≤ n + 1
      → waits c + n ≤ s.wakes + lost s.undefined
      → Due m (resume_child c (record s { parent = inside }))
  unfolding resume_child
  resumed-Due n m active s l k d = omega (arith, waits-bound s.child)
  resumed-Due n m waiting s l k d = omega arith
  resumed-Due n m ended s l k d = omega (arith, waits-bound s.child)
  resumed-Due n m finished s l k d = omega (arith, waits-bound s.child)

  Step-Due : (n : ℕ) {s t : Task T E} → n ≤ 1 → Step s t → Due n s → Due n t
  unfolding suspend return_value final_suspend wake await_ready await_suspend set_continuation
      exchange_state destroy
  Step-Due n {s} l (suspends u h) d = omega (arith, d, ap waits h)
  Step-Due n {s} l (ends o u h ne) d = omega (arith, d, ap waits h)
  Step-Due n {s} l (finishes u h) d = elim (Bool-cases s.frame) [
    | inr gone ↦ rw (gone) omega (arith, waits-bound s.child)
    | inl there ↦ elim (Bool-cases s.state) [
      | inl taken ↦ rw (there, taken) omega (arith, d, ap waits h)
      | inr free ↦ rw (there, free) omega (arith, d, ap waits h)
    ]
  ]
  Step-Due n {s} l (wakes u some_due) d =
      woken-Due n s.child s l u some_due (omega (arith, d, ap lost u))
  Step-Due n {s} l (asks u h) d = d
  Step-Due n {s} l (awaits u h) d = resumed-Due n n s.child s l (omega arith) d
  Step-Due n {s} l (stores u h) d = d
  Step-Due n {s} l (exchanges u h) d = d
  Step-Due n {s} l (destroys u h) d = d

  Reach-Due : (n : ℕ) {s t : Task T E} → n ≤ 1 → Reach s t → Due n s → Due n t
  Reach-Due n l start d = d
  Reach-Due n l (later r w) d = Step-Due n l w (Reach-Due n l r d)

  wake-finished : (c : Child) (s : Task T E) → c ≡ finished → (resume_child c s).undefined ≡ true
  unfolding resume_child
  wake-finished c s e = rw (e) refl

  -- In a state that a new task reaches, let the awaiting coroutine be told by `await_ready` that
  -- the task is not done, and run `await_suspend`. In every later state in which the task is
  -- finished there either was undefined behaviour, or a resumption of the task's coroutine by
  -- something that it waited for is still due, and that resumption is undefined.
  pub await_suspend_stale :
      {s t : Task T E}
      → Reach (new_task {T = T} {E = E}) s
      → s.parent ≡ unready
      → Reach (await_suspend s) t
      → t.child ≡ finished
      → (t.undefined ≡ true) ⊎ ((0 < t.wakes) × ((wake t).undefined ≡ true))
  unfolding await_suspend wake
  await_suspend_stale {s} {t} r p q f =
      let d : Due 0 s = Reach-Due 0 (omega arith) r (omega arith) in
      let e : Due 1 t =
        Reach-Due 1 (omega arith) q (resumed-Due 0 1 s.child s (omega arith) (omega arith) d) in
      elim (Bool-cases t.undefined) [
        | inl bad ↦ inl bad
        | inr fine ↦ inr (omega (arith, e, ap lost fine), wake-finished t.child _ f)
      ]
