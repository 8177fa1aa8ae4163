-- ===== src/Player/Lifecycle.antt =====
-- player/PlayerLifecycle.cpp: the rules for a change of a player's lifecycle state.
pub mod Moves
pub mod Laws
pub mod Tests
use stalker_mp.Base.{
  ℕ, ◌+◌, Bool, true, false, leb, ◌==◌, if◌then◌else◌, u64, ErrorCode, Expected, ok, err,
}
use stalker_mp.Player.Types.{PlayerLifecycleState, DisconnectDisposition, PlayerRecord}

abbrev pub illegal_transition : Expected PlayerLifecycleState
illegal_transition = err ErrorCode.invalid_argument

abbrev pub join_from : PlayerLifecycleState → Expected PlayerLifecycleState
join_from PlayerLifecycleState.joining = ok PlayerLifecycleState.active
join_from _ = illegal_transition

abbrev pub death_from : PlayerLifecycleState → Expected PlayerLifecycleState
death_from PlayerLifecycleState.active = ok PlayerLifecycleState.dead
death_from _ = illegal_transition

abbrev pub can_respawn : PlayerLifecycleState → Bool
can_respawn PlayerLifecycleState.dead = true
can_respawn PlayerLifecycleState.awaiting_respawn = true
can_respawn _ = false

abbrev pub retain_from : PlayerLifecycleState → Expected PlayerLifecycleState
retain_from PlayerLifecycleState.active = ok PlayerLifecycleState.suspended
retain_from PlayerLifecycleState.dead = ok PlayerLifecycleState.suspended
retain_from PlayerLifecycleState.awaiting_respawn = ok PlayerLifecycleState.suspended
retain_from _ = illegal_transition

abbrev pub reclaim_from : PlayerLifecycleState → Expected PlayerLifecycleState
reclaim_from PlayerLifecycleState.suspended = ok PlayerLifecycleState.active
reclaim_from _ = illegal_transition

-- The sum of the tick and the 32-bit delay is a 64-bit number.
abbrev pub compute_respawn_eligible_tick : ℕ → ℕ → ℕ
compute_respawn_eligible_tick death_tick respawn_delay_ticks =
    u64 (death_tick + respawn_delay_ticks)

module _ {V : Type 0} where
  unfoldable pub apply_join : PlayerRecord V → Expected PlayerLifecycleState
  apply_join r = join_from r.lifecycle

  unfoldable pub apply_death : PlayerRecord V → Expected PlayerLifecycleState
  apply_death r = death_from r.lifecycle

  abbrev pub eligible_tick : PlayerRecord V → ℕ → ℕ → ℕ
  eligible_tick r tick respawn_delay_ticks =
      if r.respawn_eligible_tick == 0
      then compute_respawn_eligible_tick tick respawn_delay_ticks
      else r.respawn_eligible_tick

  unfoldable pub apply_respawn : PlayerRecord V → ℕ → ℕ → Expected PlayerLifecycleState
  apply_respawn r tick respawn_delay_ticks =
      if can_respawn r.lifecycle
      then if leb (eligible_tick r tick respawn_delay_ticks) tick
        then ok PlayerLifecycleState.active
        else ok PlayerLifecycleState.awaiting_respawn
      else illegal_transition

  unfoldable pub apply_suspend :
      PlayerRecord V → DisconnectDisposition → Expected PlayerLifecycleState
  apply_suspend r DisconnectDisposition.remove = ok PlayerLifecycleState.removed
  apply_suspend r DisconnectDisposition.retain = retain_from r.lifecycle

  unfoldable pub apply_reclaim : PlayerRecord V → Expected PlayerLifecycleState
  apply_reclaim r = reclaim_from r.lifecycle

  unfoldable pub apply_remove : PlayerRecord V → Expected PlayerLifecycleState
  apply_remove r = ok PlayerLifecycleState.removed
