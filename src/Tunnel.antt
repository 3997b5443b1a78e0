-- ===== src/Tunnel.antt =====
-- tunnel.rs: the state that the handlers share, and the socket of a device.
pub mod State
pub mod Socket
pub mod Closed
mod Tests
