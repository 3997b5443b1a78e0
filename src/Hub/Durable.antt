-- ===== src/Hub/Durable.antt =====
-- hub.rs: the clients that the hub knows are those of the database, so that a restart restores them.
pub mod Rows
pub mod Steps
pub mod Others
pub mod Runs
mod Tests
