-- ===== src/Web.antt =====
-- internal/web: the web server.
pub mod Access
pub mod Session
pub mod Csv
