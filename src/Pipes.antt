-- ===== src/Pipes.antt =====
-- applications/pipes/nix-pipe: the reactor and the awaiters of the pipes.
pub mod Core
pub mod Ready
mod Tests
