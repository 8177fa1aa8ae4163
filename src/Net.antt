-- ===== src/Net.antt =====
-- The host networking layer: include/stalkermp/net and src/net under Multiplayer.
pub mod Types
pub mod Bytes
pub mod Header
pub mod Handshake
pub mod Reliability
pub mod Session
pub mod Table
pub mod Messages
pub mod Fragments
pub mod Queues
