-- ===== src/Admin.antt =====
-- admin.rs: the pages and calls for administrators.
pub mod Response
pub mod Passwords
pub mod Totp
pub mod Settings
pub mod Sessions
pub mod Login
pub mod Mfa
pub mod Rows
pub mod Clients
pub mod NewSession
pub mod SecondFactor
pub mod Issued
pub mod Valid
pub mod Bounded
pub mod Keeps
pub mod Kept
pub mod Calls
mod Tests
