-- ===== src/Hub/Invariant.antt =====
-- hub.rs: what holds of the hub after any calls.
pub mod Views
pub mod Known
