-- ===== src/Timers/Filetime.antt =====
-- applications/timers/win-iocp/timer_service.hpp: timeouts as file times.
use coroutines.Base.{ℕ, ◌+◌, ◌-◌, ◌*◌, ◌/◌, ◌%◌, ◌^◌, ◌≤◌, ◌<◌, arith}

pub record Filetime : Type 0 where
  pub low_date_time : ℕ
  pub high_date_time : ℕ

-- `timeout_to_filetime` of a duration in nanoseconds; `-1 * ns_incs` is kept in 64 bits.
unfoldable pub timeout_to_filetime : ℕ → Filetime
timeout_to_filetime ns =
    let ns_incs = ns / 100 in
    let quad_part = (2 ^ 64 - ns_incs) % 2 ^ 64 in
    record { low_date_time = quad_part % 2 ^ 32; high_date_time = quad_part / 2 ^ 32 }

-- What a file time says as a relative timeout, in steps of 100 nanoseconds: the 64 bits negated.
abbrev pub relative : Filetime → ℕ
relative ft = (2 ^ 64 - (ft.high_date_time * 2 ^ 32 + ft.low_date_time)) % 2 ^ 64

-- For a duration of fewer than 2 ^ 63 nanoseconds, both words of the file time fit in 32 bits, and
-- read back as a relative timeout they give the duration, rounded down to 100 nanoseconds.
pub relative-timeout_to_filetime :
    (ns : ℕ)
    → ns < 2 ^ 63
    → (relative (timeout_to_filetime ns) * 100 ≤ ns)
      × (ns < relative (timeout_to_filetime ns) * 100 + 100)
      × ((timeout_to_filetime ns).low_date_time < 2 ^ 32)
      × ((timeout_to_filetime ns).high_date_time < 2 ^ 32)
unfolding timeout_to_filetime
relative-timeout_to_filetime ns small =
    (ground (arith, small), ground (arith, small), ground arith, ground arith)
