-- ===== src/Mosh.antt =====
-- crates/mosh/src
pub mod Handshake
pub mod Shell
pub mod Opts
pub mod Launch
