-- ===== src/Crypto.antt =====
-- internal/crypto: sealing of stored secrets, and the wire encryption of login credentials.
pub mod Aead
pub mod Des
