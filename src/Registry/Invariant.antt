-- ===== src/Registry/Invariant.antt =====
-- registry.rs: the invariant of the registry, shown for each group of calls and for any sequence of them.
pub mod Shape
pub mod Devices
pub mod Requests
pub mod Rooms
pub mod Runs
