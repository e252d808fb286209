-- ===== src/Search/Tests.antt =====
-- The searches at concrete arrays: test data, runs and the theorems at them.
use coroutines.Base.Int.{ℤ, ◌≤ℤ◌}
use coroutines.Base.{
  ◌<◌, ℕ, zero, suc, ◌≡◌, refl, arith, Returns, true, false, List, [], ◌∷◌, ok, at,
}
use coroutines.Streams.Ring.{new_ring, schedule, remove_next_task}
use coroutines.Streams.Throttle
use coroutines.Streams.Throttle.{resume, spawn, spawn_all}
use coroutines.Streams.Complete.{new_streams}
use coroutines.Search.Infra.{spawn_task, resume_task, run_queue}
use coroutines.Search.Coroutines.{spawn_lookups, coro_binary_search, coro_multi_lookup}
use coroutines.Search.Frames.{
  switch, start_lookup, start_lookups, sweep, complete_all, state_machine_multi_lookup,
}
use coroutines.Search.Multi.{multi_lookup-vanilla}
use coroutines.Search.Lookups.{test_vanilla, coro-vanilla}
use coroutines.Search.Core.{
  vanilla_loop, vanilla_binary_search, init, run, machine_loop, state_machine_binary_search,
}
use coroutines.Search.Vanilla.{IsSorted, Decides, vanilla_binary_search-Decides}
use coroutines.Search.Machine.{state_machine-vanilla}

program : Unit {0}
unfolding vanilla_loop vanilla_binary_search init run machine_loop state_machine_binary_search
program = tt

abbrev items : List ℤ
items = ℤ.negsuc 2 ∷ ℤ.pos 0 ∷ ℤ.pos 4 ∷ ℤ.pos 4 ∷ ℤ.pos 9 ∷ []

found_run : vanilla_binary_search items (ℤ.pos 4) ≡ ok true
unfolding program
found_run = refl

missed_run : state_machine_binary_search items (ℤ.pos 5) ≡ ok false
unfolding program
missed_run = refl

state_machine-vanilla_example :
    state_machine_binary_search items (ℤ.pos 9) ≡ vanilla_binary_search items (ℤ.pos 9)
state_machine-vanilla_example = state_machine-vanilla items (ℤ.pos 9)

abbrev Below : ℤ → List ℤ → Type 0
Below x xs = (j : ℕ) (y : ℤ) → at xs j ≡ ok y → x ≤ℤ y

Below-cons : (x a : ℤ) (xs : List ℤ) → x ≤ℤ a → Below x xs → Below x (a ∷ xs)
Below-cons x a xs h below zero y e = ground (arith, h)
Below-cons x a xs h below (suc j) y e = below j y e

IsSorted-cons : (x : ℤ) (xs : List ℤ) → Below x xs → IsSorted xs → IsSorted (x ∷ xs)
IsSorted-cons x xs below sorted zero zero a b h e f = ground arith
IsSorted-cons x xs below sorted zero (suc j) a b h e f = ground (arith, below j b f)
IsSorted-cons x xs below sorted (suc i) zero a b h e f = absurd (omega arith)
IsSorted-cons x xs below sorted (suc i) (suc j) a b h e f = sorted i j a b (omega arith) e f

IsSorted-nil : IsSorted []
IsSorted-nil i j x y h e f = cc

abbrev three : List ℤ
three = ℤ.negsuc 2 ∷ ℤ.pos 4 ∷ ℤ.pos 9 ∷ []

three-IsSorted : IsSorted three
three-IsSorted =
    let a = ℤ.negsuc 2 in
    let b = ℤ.pos 4 in
    let c = ℤ.pos 9 in
    let below_c : Below b (c ∷ []) = Below-cons b c [] (omega arith) λ j y e. cc in
    let below_a : Below a (c ∷ []) = Below-cons a c [] (omega arith) λ j y e. cc in
    IsSorted-cons a (b ∷ c ∷ []) (Below-cons a b (c ∷ []) (omega arith) below_a)
      (IsSorted-cons b (c ∷ []) below_c (IsSorted-cons c [] (λ j y e. cc) IsSorted-nil))

vanilla_binary_search-Decides_example :
    Returns
      (vanilla_binary_search three (ℤ.pos 9))
      λ b. Decides b ((i : ℕ) × (at three i ≡ ok (ℤ.pos 9)))
vanilla_binary_search-Decides_example = vanilla_binary_search-Decides three three-IsSorted (ℤ.pos 9)

coro_runs : coro_multi_lookup 3 40 2 items (ℤ.pos 9 ∷ ℤ.pos 5 ∷ ℤ.negsuc 2 ∷ []) ≡ ok 2
unfolding coro_multi_lookup coro_binary_search new_streams spawn_all spawn resume Throttle.run
    new_ring schedule remove_next_task spawn_lookups spawn_task resume_task run_queue
coro_runs = refl

coro-vanilla_example :
    (enough : ℕ) × ((rounds fuel : ℕ)
      → 2 < rounds
      → enough < fuel
      → coro_multi_lookup rounds fuel 2 items (ℤ.pos 9 ∷ ℤ.pos 5 ∷ [])
        ≡ test_vanilla items (ℤ.pos 9 ∷ ℤ.pos 5 ∷ []))
coro-vanilla_example = coro-vanilla 2 items (ℤ.pos 9 ∷ ℤ.pos 5 ∷ []) (omega arith) (omega arith)

multi_runs : state_machine_multi_lookup 6 6 items (ℤ.pos 9 ∷ ℤ.pos 5 ∷ ℤ.negsuc 2 ∷ []) 2 ≡ ok 2
unfolding state_machine_multi_lookup start_lookups start_lookup switch sweep complete_all init run
multi_runs = refl

multi_lookup-vanilla_example :
    (enough : ℕ) × ((rounds fuel : ℕ)
      → enough < rounds
      → enough < fuel
      → state_machine_multi_lookup rounds fuel items (ℤ.pos 9 ∷ ℤ.pos 5 ∷ []) 2
        ≡ test_vanilla items (ℤ.pos 9 ∷ ℤ.pos 5 ∷ []))
multi_lookup-vanilla_example =
    multi_lookup-vanilla 2 items (ℤ.pos 9 ∷ ℤ.pos 5 ∷ []) (omega arith) (omega arith) (omega arith)
