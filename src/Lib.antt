-- ===== src/Lib.antt =====
-- Models and theorems for the coroutines repository, a collection of C++20 coroutine programs.
--
-- Map models applications/map/map.hpp, a hash map with separate chaining. Map/Core holds the
-- types and the small helpers (`index_in` is `hash & (capacity - 1)`, `next_power_of_2`,
-- `resize_required`, `insert_into_bucket`, the constructor), Map/Operations holds `lookup`,
-- `insert`, `update`, `remove`, `perform_resize_if_required` and `sequential_multilookup`. A chain
-- of entries is a list, a bucket holds its chain and its count, the array of buckets is a list.
-- The hash function and the equality of keys are parameters; equality is assumed to decide equality.
-- A pointer in the result of `insert` or `update` says what it refers to (`Referent`), and `update`
-- has an argument for whether the destructor of the value type is trivial: it calls the destructor
-- before it assigns (`assign_destroyed`).
-- The proofs: Map/Capacity (powers of two), Chain and Table (what a chain and a table hold), Write,
-- Resize, Valid (the invariant and the abstract map `view`), Lookup, Insert, Update, Remove,
-- Removal, RemoveLaws, RemoveLost and RemoveCases (removals, at the first entry of a chain and
-- behind it).
--
-- Streams models applications/map/scheduler.hpp, throttler.hpp and prefetch.hpp: Ring is the ring of
-- coroutine handles, Throttle the coroutines that suspend at a prefetch and the throttler that
-- spawns them. A waiting frame has one handle, so the ring holds the frame itself. What a coroutine
-- does from one suspension to the next is a parameter. Queue and Fifo relate the ring to a queue,
-- Turns and Complete follow the coroutines to their ends, Overflow fills the ring.
--
-- Map/Interleaved gives that parameter for `lookup_task` of map.hpp, with `interleaved_multilookup`;
-- Map/Stats models `stats`, Map/Results the results of the operations with their accessors.
--
-- Search models applications/binary-search: Core holds `vanilla_binary_search` of vanilla.hpp and
-- `Frame` with `init` and `run` and the search of state_machine.hpp. Iterators and pointers are
-- positions in the array. Vanilla and Machine hold the proofs. Infra models the queue and the throttler
-- of coro_infra.hpp, Coroutines `coro_binary_search` and `coro_multi_lookup` of coroutine.hpp,
-- Lookups `test_vanilla` of manual.cpp and the proofs. Frames models `state_machine_multi_lookup`
-- of state_machine.hpp; Pending says what its frames have left to do, Phases
-- which of them are searching, and Multi has the proofs.
--
-- Allocator models applications/map/recycling_allocator.hpp and `tcalloc` of
-- applications/binary-search/coro_infra.hpp in Recycling; Clients holds the histories of clients
-- that take and return blocks. What `malloc` answers is a parameter of each request.
--
-- Event models primitives/manual-reset-event/manual_reset_event.hpp: Core has the event with its
-- awaiters and one definition for each atomic access of `await_ready`, `await_suspend`, `set` and
-- `reset`, and the relation of their interleavings; Sound has the invariant, Wakeups what follows
-- for the coroutines. Awaiters holds the intrusive lists that the primitives build.
--
-- Latch models primitives/async-latch/async_latch.hpp in the same way: a call of `count_down` is in
-- its first loop (`calls`), past it with the count at zero (`released`), or walks the list
-- (`resuming`).
--
-- Lock models primitives/async-lock/async_lock.hpp: `load_state` and `acquire_round` are
-- `await_suspend`, `release` is the function up to its first exchange and `transfer` the rest of it.
-- Sound has the invariant, Releases what a release does.
--
-- Pool models applications/threadpool/thread_pool.hpp with queue.hpp: `load_state`, `enter_round`
-- and `push` are `schedule()`, `pop` and `notify_awaiter_leave` are `work_loop`, `close` and
-- `push_batch` are `shutdown`. Work has the invariant, Shutdown what follows from it; Resumptions
-- counts how often a coroutine is scheduled and resumed, Closed follows a closed pool, Stranded a
-- coroutine that is pushed after the workers left.
--
-- Timers models applications/timers/win-iocp: Filetime is `timeout_to_filetime`, Service holds the
-- fields of `timer_service` and one definition for each atomic access of `post`, of the worker
-- (`process_requests`, `on_timer_expiration`, `on_shutdown_request`), of `run` and of `shutdown`,
-- Steps their interleavings. What the system does, which timer expires and which packet the port
-- hands out, is left open: any order is a step. Timer handles given by the user are distinct.
-- Account has the invariant; Ends, Late and Reactors what follows for the requests and the reactors.
--
-- Generator models libcoro/include/libcoro/generator.hpp: Core holds the coroutine with its
-- `generator_promise`, `begin`, the iterator and a range-based for. The body is a parameter that
-- says what happens from one suspension to the next. Range relates the loop to the values of the
-- body.
--
-- Lazy models primitives/lazy/lazy.hpp, with the awaitable of `final_suspend` as an argument of
-- `get_with`.
--
-- Task models libcoro/include/libcoro/task.hpp (eager_task.hpp is the same under other names): Core
-- has one definition for each atomic access of `final_awaitable`, `try_set_continuation` and the
-- awaitable, Steps their interleavings with the body, which suspends and is resumed by what it
-- waits for. Sound has the invariant, Stale the resumption by `await_suspend`.
--
-- Handles models libcoro/include/libcoro/win/unique_handle.hpp and nix/unique_fd.hpp: Core has the
-- operations on objects at places of a list, Ledger counts the handles in them, Steps holds the
-- histories, and Owned and Conserved the proofs.
--
-- Pipes models applications/pipes/nix-pipe: Core holds the reactor of io_context.hpp, over an
-- interface `Epoll` with what epoll_ctl and epoll_wait are documented to do, the callback of
-- ioc_awaiter_base.hpp and the awaiters of both pipes; Ready the histories and the proofs.
--
-- Timers/Timerfd models applications/timers/nix-timerfd, the timer of awaitable_timer.hpp with the
-- program of awaitable.cpp, over an interface `Timerfd` with what timerfd_settime and a wait for
-- the timer are documented to do; Driver has the proofs.
--
-- WhenAll models algorithms/when-all/when_all.hpp: Core has the counter and one definition for each
-- atomic access of `await_suspend`, `try_await` and `notify_task_completion`; Joins has the proofs.
--
-- Base holds what the parts share: comparisons, lists indexed by native numbers, the result type
-- with its faults, bit masks and signed integers.
--
-- Bounds. `std::size_t` has 64 bits. Theorems on the map assume fewer than 2 ^ 61 items, where the
-- capacity, at most four times that, cannot wrap around. The load test, in the source a comparison
-- of floating point numbers with 0.5, is twice the count against the capacity, which is the same
-- below 2 ^ 53. Fuel: a search has one round more than the array has elements, since its range gets
-- shorter in each round, and the loop over the frame's `run` has two more; the loops over a list of
-- awaiters have one round more than the list has awaiters. A resumed coroutine hands over to the
-- next one, so `fuel` counts the suspensions within one `resume()`, and `rounds` the resumptions by
-- the scheduler's loop; more rounds than streams are enough, and more fuel than the suspensions of
-- all the coroutines together.
--
-- Not modelled: destructors and moves, which only release memory; the memory order of atomic
-- operations; prefetching; printing; benchmark drivers; the other pipes and
-- timers, which wrap system calls; the teaching programs and the unfinished `maybe`.
pub mod Base
pub mod Awaiters
pub mod Streams
pub mod Map
pub mod Search
pub mod Allocator
pub mod Event
pub mod Latch
pub mod Lock
pub mod Pool
pub mod Timers
pub mod Generator
pub mod Lazy
pub mod Task
pub mod Handles
pub mod Pipes
pub mod WhenAll
