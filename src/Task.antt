-- ===== src/Task.antt =====
-- libcoro/include/libcoro/task.hpp: a task and the coroutine that awaits it.
pub mod Core
pub mod Steps
pub mod Sound
pub mod Stale
mod Tests
