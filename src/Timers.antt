-- ===== src/Timers.antt =====
-- applications/timers: the timer service on a completion port in win-iocp, and the timer of
-- nix-timerfd.
pub mod Filetime
pub mod Service
pub mod Steps
pub mod Account
pub mod Ends
pub mod Late
pub mod Reactors
pub mod Timerfd
pub mod Driver
mod Tests
