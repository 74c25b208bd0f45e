-- ===== src/Tests.antt =====
-- Runs of the model on concrete inputs, and libraries that keep what the hypotheses ask of them.
pub mod Libraries
pub mod UserCodec
pub mod Crypto
pub mod Fragments
pub mod Endpoints
pub mod States
pub mod Datagram
pub mod Pipe
pub mod Terminal
pub mod Screen
pub mod Programs
