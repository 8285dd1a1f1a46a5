-- ===== src/Repository.antt =====
-- internal/repository: the statements of the two PostgreSQL repositories.
pub mod Statement
pub mod Trips
pub mod Outbox
pub mod Effects
pub mod Lookup
pub mod Reliable
pub mod Selection
pub mod Members
pub mod Backlog
