-- ===== src/State.antt =====
-- crates/mosh-state: the two states that the ends synchronise.
pub mod User
