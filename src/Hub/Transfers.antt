-- ===== src/Hub/Transfers.antt =====
-- hub.rs: what holds of file transfers.
pub mod Places
pub mod Steps
pub mod Runs
pub mod Complete
pub mod Chunks
pub mod Collision
mod Tests
