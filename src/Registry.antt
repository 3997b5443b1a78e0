-- ===== src/Registry.antt =====
-- registry.rs: the devices that hold a tunnel, their pending requests, and the pairing rooms.
pub mod State
pub mod Rooms
pub mod Devices
pub mod Requests
pub mod Fields
pub mod Events
pub mod Invariant
pub mod Linked
pub mod Lifecycle
pub mod Outcomes
pub mod Replaced
pub mod Membership
pub mod Samples
pub mod Tests
