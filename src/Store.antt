-- ===== src/Store.antt =====
-- internal/store: the Postgres data access layer.
pub mod Db
pub mod Access
pub mod Accounts
pub mod Audit
pub mod Candidates
pub mod Commands
pub mod Credentials
pub mod DefaultGroup
pub mod Grants
pub mod Groups
pub mod Names
pub mod Restricted
pub mod Shares
pub mod Tokens
pub mod Untouched
pub mod Users
