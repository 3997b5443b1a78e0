-- ===== src/Registry/Linked.antt =====
-- registry.rs: the store of sessions and the map of devices agree after any calls.
pub mod Writes
pub mod Steps
