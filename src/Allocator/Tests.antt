-- ===== src/Allocator/Tests.antt =====
-- The allocators at concrete blocks: test data, runs and the theorems at them.
use coroutines.Base.{ℕ, ◌+◌, ◌≤◌, ◌<◌, ◌≡◌, refl, none, some, [], ◌∷◌}
use coroutines.Allocator.Recycling.{
  Block, memory, bad_alloc, alloc, free, empty_allocator, Tcalloc, tc_alloc, tc_free,
}
use coroutines.Allocator.Clients.{
  take, give, Reach, start, later, AllHeld, times, blocks, pointer, frames_disjoint, alloc-free,
  tc_alloc-alloc,
}

abbrev frame : Block
frame = record { address = 4096; bytes = 48 }

taken : Reach 48 (record { allocator = empty_allocator; held = frame ∷ [] })
unfolding alloc
taken = later start (take (some 4096) frame empty_allocator (λ x e. refl) refl)

returned : Reach 48 (record { allocator = free frame 48 empty_allocator; held = [] })
returned = later taken (give [] [] frame refl)

frames_disjoint_example :
    AllHeld 48 []
    × ((x : ℕ) → times x (blocks (free frame 48 empty_allocator).root) + times x [] ≤ 1)
frames_disjoint_example = frames_disjoint returned

alloc-free_run :
    (48 ≤ 64 → alloc none 64 (free frame 48 empty_allocator) ≡ (memory frame, empty_allocator))
    × (64 < 48
        → alloc none 64 (free frame 48 empty_allocator)
          ≡ (bad_alloc, free frame 48 empty_allocator))
alloc-free_run = alloc-free none 64 frame empty_allocator

-- The allocator of coro_infra.hpp with one returned frame.
abbrev recycled : Tcalloc
recycled = record {
  base = record { root = record { block = frame; size = 48 } ∷ [] };
  last_size_allocated = 48;
  total = 48;
  alloc_count = 1;
}

tc_free_run :
    tc_free frame 48
      (record { base = empty_allocator; last_size_allocated = 48; total = 48; alloc_count = 1 })
    ≡ recycled
unfolding tc_free free
tc_free_run = refl

tc_alloc-alloc_example :
    (pointer (alloc none 48 recycled.base).0 ≡ (tc_alloc none 48 recycled).0)
    × ((alloc none 48 recycled.base).1 ≡ (tc_alloc none 48 recycled).1.base)
tc_alloc-alloc_example = tc_alloc-alloc none 48 recycled
