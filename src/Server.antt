-- ===== src/Server.antt =====
-- crates/mosh-server/src
pub mod Args
