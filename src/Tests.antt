-- ===== src/Tests.antt =====
-- Runs of the definitions on concrete data, and the theorems applied to such data.
pub mod Data
pub mod Accounts
pub mod Tokens
pub mod Packets
pub mod Presences
pub mod Logins
pub mod Groups
pub mod Rights
pub mod Sharing
pub mod Hub
pub mod Settings
pub mod Csv
