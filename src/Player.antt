-- ===== src/Player.antt =====
-- The players: Multiplayer/include/stalkermp/player and Multiplayer/src/player.
pub mod Types
pub mod Lifecycle
pub mod Registry
