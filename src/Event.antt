-- ===== src/Event.antt =====
-- primitives/manual-reset-event/manual_reset_event.hpp: the event, its invariant, and the wakeups.
pub mod Core
pub mod Sound
pub mod Wakeups
mod Tests
