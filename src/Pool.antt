-- ===== src/Pool.antt =====
-- applications/threadpool: the pool of worker threads with its queue.
pub mod Core
pub mod Work
pub mod Shutdown
pub mod Resumptions
pub mod Stranded
pub mod Closed
mod Tests
