-- ===== src/Secure.antt =====
-- secure.rs: the messages of the pairing, signatures, the shared-key cipher and the short code.
pub mod Messages
pub mod Verify
pub mod Cipher
pub mod Sas
pub mod Samples
mod Tests
