-- ===== src/Crypto.antt =====
-- crates/mosh-crypto: keys, nonces and the protection of messages.
pub mod Base64
pub mod Key
pub mod Session
