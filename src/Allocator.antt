-- ===== src/Allocator.antt =====
-- The recycling allocators of coroutine frames: applications/map/recycling_allocator.hpp and the
-- allocator of applications/binary-search/coro_infra.hpp.
pub mod Recycling
pub mod Clients
mod Tests
