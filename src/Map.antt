-- ===== src/Map.antt =====
-- applications/map/map.hpp: the chaining hash map and its operations.
pub mod Core
pub mod Capacity
pub mod Operations
pub mod Chain
pub mod Table
pub mod Write
pub mod Resize
pub mod Valid
pub mod Lookup
pub mod Insert
pub mod Update
pub mod Remove
pub mod Removal
pub mod RemoveLaws
pub mod RemoveLost
pub mod RemoveCases
pub mod Results
pub mod Interleaved
pub mod Stats
mod Tests
