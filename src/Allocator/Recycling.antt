-- ===== src/Allocator/Recycling.antt =====
-- applications/map/recycling_allocator.hpp and `tcalloc` of
-- applications/binary-search/coro_infra.hpp: a stack of returned blocks, each with the size that
-- its owner gave back.
use coroutines.Base.{ℕ, ◌+◌, ◌%◌, ◌^◌, Option, none, some, List, [], ◌∷◌, leb, if◌then◌else◌}

-- A block of memory: where it lies, and how many bytes `malloc` was asked for.
pub record Block : Type 0 where
  pub address : ℕ
  pub bytes : ℕ

-- A free block with the `size` of its `Header`; `next` is its place in the list.
pub record Free : Type 0 where
  pub block : Block
  pub size : ℕ

-- The free list from `root` on; the empty list is `nullptr`.
pub record Allocator : Type 0 where
  pub root : List Free

pub data Outcome : Type 0 where
  memory : Block → Outcome
  bad_alloc : Outcome

abbrev pub empty_allocator : Allocator
empty_allocator = record { root = [] }

-- What `malloc(n)` answers is given: an address, or none.
from_malloc : Option ℕ → ℕ → Allocator → Outcome × Allocator
from_malloc none n a = (bad_alloc, a)
from_malloc (some address) n a = (memory (record { address = address; bytes = n }), a)

-- `alloc(n)`: the top of the free list if its size is at most `n`.
alloc_from : List Free → Option ℕ → ℕ → Outcome × Allocator
unfolding from_malloc
alloc_from [] answer n = from_malloc answer n (record { root = [] })
alloc_from (top ∷ rest) answer n =
    if leb top.size n
    then (memory top.block, record { root = rest })
    else from_malloc answer n (record { root = top ∷ rest })

unfoldable pub alloc : Option ℕ → ℕ → Allocator → Outcome × Allocator
unfolding alloc_from
alloc answer n a = alloc_from a.root answer n

-- `free(ptr, n)`.
unfoldable pub free : Block → ℕ → Allocator → Allocator
free block n a = record { root = record { block = block; size = n } ∷ a.root }

-- `tcalloc` counts its calls of `malloc` as well, and returns a null pointer where that fails.
pub record Tcalloc : Type 0 where
  pub base : Allocator
  pub last_size_allocated : ℕ
  pub total : ℕ
  pub alloc_count : ℕ

from_system : Option ℕ → ℕ → Tcalloc → Option Block × Tcalloc
from_system answer n t = (
  elim answer [ none ↦ none | some address ↦ some (record { address = address; bytes = n }) ],
  record t {
    last_size_allocated = n;
    total = (t.total + n) % 2 ^ 64;
    alloc_count = (t.alloc_count + 1) % 2 ^ 64;
  },
)

tc_alloc_from : List Free → Option ℕ → ℕ → Tcalloc → Option Block × Tcalloc
unfolding from_system
tc_alloc_from [] answer n t = from_system answer n t
tc_alloc_from (top ∷ rest) answer n t =
    if leb top.size n
    then (some top.block, record t { base = record { root = rest } })
    else from_system answer n t

unfoldable pub tc_alloc : Option ℕ → ℕ → Tcalloc → Option Block × Tcalloc
unfolding tc_alloc_from
tc_alloc answer n t = tc_alloc_from t.base.root answer n t

unfoldable pub tc_free : Block → ℕ → Tcalloc → Tcalloc
unfolding free
tc_free block n t = record t { base = free block n t.base }
