-- ===== src/Terminal.antt =====
-- crates/mosh-terminal: the escape-sequence parser, the screen, the functions that the sequences
-- select, and the emulator that wires them together.
pub mod Parser
pub mod Utf8
pub mod Text
pub mod Renditions
pub mod Cell
pub mod DrawState
pub mod Framebuffer
pub mod Dispatcher
pub mod UserInput
pub mod Emulator
