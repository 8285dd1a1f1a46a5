-- ===== src/Service.antt =====
-- internal/service: the trip service over any repositories and any contract checker.
pub mod Transaction
pub mod Validate
pub mod Atomic
pub mod Publishing
pub mod Starting
pub mod Creating
pub mod Frame
pub mod Counting
pub mod Trips
