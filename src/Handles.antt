-- ===== src/Handles.antt =====
-- libcoro/include/libcoro/win/unique_handle.hpp and nix/unique_fd.hpp: owners of system handles.
pub mod Core
pub mod Ledger
pub mod Steps
pub mod Owned
pub mod Conserved
mod Tests
