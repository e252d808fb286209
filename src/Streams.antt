-- ===== src/Streams.antt =====
-- Coroutines that take turns: the queue of coroutine handles and the throttler that
-- applications/map and applications/binary-search share in form.
pub mod Ring
pub mod Queue
pub mod Throttle
pub mod Turns
pub mod Complete
pub mod Overflow
pub mod Fifo
mod Tests
