-- ===== src/Database.antt =====
-- database.rs: the tables that the hub keeps its state in, and the statements on them.
pub mod Tables
pub mod Statements
pub mod Keeps
pub mod Clients
pub mod Contents
pub mod Open
pub mod Recent
pub mod Settings
pub mod Admins
pub mod Logs
pub mod Retention
pub mod Sessions
mod Tests
