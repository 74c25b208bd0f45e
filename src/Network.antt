-- ===== src/Network.antt =====
-- crates/mosh-network: what travels between the two ends, and the rules for sending it.
pub mod Compressor
pub mod Fragment
pub mod Assembly
pub mod Fragmenter
pub mod Reassembly
pub mod Packet
pub mod Connection
pub mod Sync
pub mod Sender
pub mod Transport
