-- ===== src/Hub.antt =====
-- hub.rs: pairing, the keys of the clients, pastes, and the transfer of files.
pub mod State
pub mod Pairing
pub mod Restart
pub mod Push
pub mod Contents
pub mod Streams
pub mod RoundTrip
pub mod Challenges
pub mod Icons
pub mod World
pub mod Broadcast
pub mod Reports
pub mod Upload
pub mod Fetch
pub mod Events
pub mod Trust
pub mod Confirm
pub mod Exchange
pub mod Invariant
pub mod Transfers
mod Tests
mod ReportTests
pub mod Samples
pub mod Durable
