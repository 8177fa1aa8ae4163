-- ===== src/Player/Types.antt =====
-- player/PlayerTypes.h. Ids and keys are numbers, 0 for none; a position (with the tick it was taken at) is a
-- parameter.
use stalker_mp.Base.{ℕ}

pub data PlayerLifecycleState : Type 0 where
  joining active dead awaiting_respawn suspended removed : PlayerLifecycleState

pub data PlayerConnectionState : Type 0 where
  connected suspended reclaimed : PlayerConnectionState

pub data DisconnectDisposition : Type 0 where
  retain remove : DisconnectDisposition

pub record PlayerRecord (V : Type 0) : Type 0 where
  pub id : ℕ
  pub connection : ℕ
  pub session_member : ℕ
  pub entity : ℕ
  pub lifecycle : PlayerLifecycleState
  pub connection_state : PlayerConnectionState
  pub last_position : V
  pub join_tick : ℕ
  pub respawn_eligible_tick : ℕ
  pub reconnect_token : ℕ

pub record PlayerMappingView : Type 0 where
  pub id : ℕ
  pub connection : ℕ
  pub session_member : ℕ
  pub entity : ℕ

abbrev pub player_key : {V : Type 0} → PlayerRecord V → ℕ
player_key r = r.id
