-- ===== src/Prediction.antt =====
-- The buffers of client-side prediction: Multiplayer/include/stalkermp/prediction and
-- Multiplayer/src/prediction.
pub mod Inputs
