-- ===== src/SyncInfo.antt =====
-- sync_info.rs: what the server tells clients of itself, and how it is packed into a QR code or TXT
-- records.
pub mod Info
pub mod Rotate
pub mod Qr
pub mod Hosts
pub mod Records
pub mod Ranked
pub mod Tests
mod HostTests
