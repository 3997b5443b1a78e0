-- ===== src/Routes.antt =====
-- routes.rs: the calls of clients and operators. A call is an action on the shared state whose error
-- is one of the relay's.
pub mod Guards
pub mod Pairing
pub mod Files
pub mod Pastes
pub mod Admission
pub mod Admits
pub mod Rooms
pub mod Proxying
pub mod Logging
mod Tests
