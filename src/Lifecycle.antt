-- ===== src/Lifecycle.antt =====
-- What the service promises of the tables: the changes that a trip goes through, as relations
-- between the tables before and after, with no word of statements, errors or transactions.
pub mod Rows
pub mod Changes
pub mod Consistency
pub mod Transition
pub mod View
