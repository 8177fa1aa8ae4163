-- ===== src/World.antt =====
-- The world layer: Multiplayer/src/world and Multiplayer/include/stalkermp/world.
pub mod Types
pub mod Registry
pub mod Intents
pub mod Transition
pub mod Bubble
