-- ===== src/Generator.antt =====
-- libcoro/include/libcoro/generator.hpp: sequences of values that a coroutine yields.
pub mod Core
pub mod Range
mod Tests
