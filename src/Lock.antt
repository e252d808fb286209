-- ===== src/Lock.antt =====
-- primitives/async-lock/async_lock.hpp: the lock, its invariant, and what a release does.
pub mod Core
pub mod Sound
pub mod Histories
pub mod Releases
mod Tests
