-- ===== src/Latch.antt =====
-- primitives/async-latch/async_latch.hpp: the latch, its invariant, and the wakeups.
pub mod Core
pub mod Sound
pub mod Wakeups
mod Tests
