-- ===== src/WhenAll.antt =====
-- algorithms/when-all/when_all.hpp: waiting for all of a number of tasks.
pub mod Core
pub mod Joins
mod Tests
