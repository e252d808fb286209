-- ===== src/Search.antt =====
-- applications/binary-search: the plain search and the state machine.
pub mod Core
pub mod Vanilla
pub mod Machine
pub mod Infra
pub mod Coroutines
pub mod Lookups
pub mod Frames
pub mod Pending
pub mod Phases
pub mod Multi
mod Tests
