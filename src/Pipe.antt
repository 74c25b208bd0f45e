-- ===== src/Pipe.antt =====
-- crates/mosh-pipe: a command's standard streams in place of a terminal.
pub mod Stream
