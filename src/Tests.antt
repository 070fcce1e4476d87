-- ===== src/Tests.antt =====
-- The theorems at work on small concrete inputs: a server with three users, two of them
-- administrators, a session of two of them, and one stored file.
pub mod Hashes
pub mod Trust
pub mod Catalogs
pub mod Setup
pub mod Formats
pub mod Accounts
pub mod Files
pub mod Connections
pub mod Logs
pub mod Storage
pub mod Database
pub mod Encryption
pub mod Clients
pub mod Runs
pub mod Deliveries
