-- ===== src/Replication.antt =====
-- The replication layer: Multiplayer/include/stalkermp/replication and Multiplayer/src/replication.
pub mod Merge
pub mod Delta
pub mod Queues
