-- ===== src/Sso.antt =====
-- internal/sso: the hub between the clients, the store and the tracker of who is online. Left out
-- here: the websocket, its messages as JSON, and the logging.
pub mod Admin
pub mod Clients
pub mod Manage
pub mod Pick
pub mod Relay
pub mod Splice
pub mod Validate
pub mod Sharing
pub mod Session
