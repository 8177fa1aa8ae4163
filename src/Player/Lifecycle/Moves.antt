-- ===== src/Player/Lifecycle/Moves.antt =====
-- The lifecycle of a player as a step relation.
use stalker_mp.Base.{
  subst, ap, ℕ, ◌+◌, ◌≤◌, ◌<◌, ◌⊎◌, u64, ◌≡◌, refl, Bool, true, false, if◌then◌else◌, Expected, ok,
  err, arith,
}
use stalker_mp.Player.Types.{PlayerLifecycleState, DisconnectDisposition}
use stalker_mp.Player.Lifecycle.{
  illegal_transition, join_from, death_from, retain_from, reclaim_from, can_respawn,
}

-- A request to change the state.
pub data Request : Type 0 where
  join death reclaim removal : Request
  respawn : ℕ → ℕ → Request
  disconnect : DisconnectDisposition → Request

-- A respawn at a tick with a delay, for a player with an eligible tick: it is due from that tick on, or, with
-- no such tick (0), from the tick after the delay; the sum is a 64-bit number.
abbrev pub IsDue : ℕ → ℕ → ℕ → Type 0
IsDue eligible tick delay =
    (eligible ≡ 0) × (u64 (tick + delay) ≤ tick) ⊎ (0 < eligible) × (eligible ≤ tick)

abbrev pub IsEarly : ℕ → ℕ → ℕ → Type 0
IsEarly eligible tick delay =
    (eligible ≡ 0) × (tick < u64 (tick + delay)) ⊎ (0 < eligible) × (tick < eligible)

-- The legal moves of a player with an eligible tick, by the request that asks for them.
pub data Move (eligible : ℕ) : Request → PlayerLifecycleState → PlayerLifecycleState → Type 0 where
  joins : Move eligible join PlayerLifecycleState.joining PlayerLifecycleState.active
  dies : Move eligible death PlayerLifecycleState.active PlayerLifecycleState.dead
  waits :
      (tick delay : ℕ)
      → IsEarly eligible tick delay
      → Move eligible
          (respawn tick delay)
          PlayerLifecycleState.dead
          PlayerLifecycleState.awaiting_respawn
  keeps_waiting :
      (tick delay : ℕ)
      → IsEarly eligible tick delay
      → Move eligible
          (respawn tick delay)
          PlayerLifecycleState.awaiting_respawn
          PlayerLifecycleState.awaiting_respawn
  respawns :
      (tick delay : ℕ)
      → IsDue eligible tick delay
      → Move eligible (respawn tick delay) PlayerLifecycleState.dead PlayerLifecycleState.active
  respawns_late :
      (tick delay : ℕ)
      → IsDue eligible tick delay
      → Move eligible
          (respawn tick delay)
          PlayerLifecycleState.awaiting_respawn
          PlayerLifecycleState.active
  suspends :
      Move eligible
        (disconnect DisconnectDisposition.retain)
        PlayerLifecycleState.active
        PlayerLifecycleState.suspended
  suspends_dead :
      Move eligible
        (disconnect DisconnectDisposition.retain)
        PlayerLifecycleState.dead
        PlayerLifecycleState.suspended
  suspends_waiting :
      Move eligible
        (disconnect DisconnectDisposition.retain)
        PlayerLifecycleState.awaiting_respawn
        PlayerLifecycleState.suspended
  reclaims : Move eligible reclaim PlayerLifecycleState.suspended PlayerLifecycleState.active
  removes : (s : PlayerLifecycleState) → Move eligible removal s PlayerLifecycleState.removed
  is_dropped :
      (s : PlayerLifecycleState)
      → Move eligible (disconnect DisconnectDisposition.remove) s PlayerLifecycleState.removed

-- What is answered is a legal move.
abbrev pub Legal : ℕ → Request → PlayerLifecycleState → Expected PlayerLifecycleState → Type 0
Legal eligible q s (ok s') = Move eligible q s s'
Legal eligible q s (err e) = Unit

module _ (eligible : ℕ) where
  pub join_from-Legal : (s : PlayerLifecycleState) → Legal eligible join s (join_from s)
  join_from-Legal PlayerLifecycleState.joining = joins
  join_from-Legal PlayerLifecycleState.active = tt
  join_from-Legal PlayerLifecycleState.dead = tt
  join_from-Legal PlayerLifecycleState.awaiting_respawn = tt
  join_from-Legal PlayerLifecycleState.suspended = tt
  join_from-Legal PlayerLifecycleState.removed = tt

  pub death_from-Legal : (s : PlayerLifecycleState) → Legal eligible death s (death_from s)
  death_from-Legal PlayerLifecycleState.joining = tt
  death_from-Legal PlayerLifecycleState.active = dies
  death_from-Legal PlayerLifecycleState.dead = tt
  death_from-Legal PlayerLifecycleState.awaiting_respawn = tt
  death_from-Legal PlayerLifecycleState.suspended = tt
  death_from-Legal PlayerLifecycleState.removed = tt

  pub retain_from-Legal :
      (s : PlayerLifecycleState)
      → Legal eligible (disconnect DisconnectDisposition.retain) s (retain_from s)
  retain_from-Legal PlayerLifecycleState.joining = tt
  retain_from-Legal PlayerLifecycleState.active = suspends
  retain_from-Legal PlayerLifecycleState.dead = suspends_dead
  retain_from-Legal PlayerLifecycleState.awaiting_respawn = suspends_waiting
  retain_from-Legal PlayerLifecycleState.suspended = tt
  retain_from-Legal PlayerLifecycleState.removed = tt

  pub reclaim_from-Legal : (s : PlayerLifecycleState) → Legal eligible reclaim s (reclaim_from s)
  reclaim_from-Legal PlayerLifecycleState.joining = tt
  reclaim_from-Legal PlayerLifecycleState.active = tt
  reclaim_from-Legal PlayerLifecycleState.dead = tt
  reclaim_from-Legal PlayerLifecycleState.awaiting_respawn = tt
  reclaim_from-Legal PlayerLifecycleState.suspended = reclaims
  reclaim_from-Legal PlayerLifecycleState.removed = tt

  -- The answer to a respawn, by whether the time has come.
  pub respawn-Legal :
      (s : PlayerLifecycleState) (tick delay : ℕ) (now : Bool)
      → (now ≡ true → IsDue eligible tick delay)
      → (now ≡ false → IsEarly eligible tick delay)
      → Legal eligible (respawn tick delay) s (
          if can_respawn s
          then if now
            then ok PlayerLifecycleState.active
            else ok PlayerLifecycleState.awaiting_respawn
          else illegal_transition)
  respawn-Legal PlayerLifecycleState.joining tick delay now due early = tt
  respawn-Legal PlayerLifecycleState.active tick delay now due early = tt
  respawn-Legal PlayerLifecycleState.dead tick delay true due early = respawns tick delay (due refl)
  respawn-Legal PlayerLifecycleState.dead tick delay false due early = waits tick delay (early refl)
  respawn-Legal PlayerLifecycleState.awaiting_respawn tick delay true due early =
      respawns_late tick delay (due refl)
  respawn-Legal PlayerLifecycleState.awaiting_respawn tick delay false due early =
      keeps_waiting tick delay (early refl)
  respawn-Legal PlayerLifecycleState.suspended tick delay now due early = tt
  respawn-Legal PlayerLifecycleState.removed tick delay now due early = tt

  payload : PlayerLifecycleState → Expected PlayerLifecycleState → PlayerLifecycleState
  payload d (ok s) = s
  payload d (err e) = d

  pub ok-Legal :
      (q : Request) (s s' : PlayerLifecycleState) (x : Expected PlayerLifecycleState)
      → Legal eligible q s x
      → x ≡ ok s'
      → Move eligible q s s'
  unfolding payload
  ok-Legal q s s' (ok t) m e = subst (Move eligible q s) (ap (payload s) e) m
  ok-Legal q s s' (err c) m e = absurd (ground (arith, e))

-- No move leads out of `removed`.
unfoldable pub Out : PlayerLifecycleState → PlayerLifecycleState → Type 0
Out PlayerLifecycleState.removed t = t ≡ PlayerLifecycleState.removed
Out _ t = Unit

removed-Out : (s : PlayerLifecycleState) → Out s PlayerLifecycleState.removed
unfolding Out
removed-Out PlayerLifecycleState.removed = refl
removed-Out PlayerLifecycleState.joining = tt
removed-Out PlayerLifecycleState.active = tt
removed-Out PlayerLifecycleState.dead = tt
removed-Out PlayerLifecycleState.awaiting_respawn = tt
removed-Out PlayerLifecycleState.suspended = tt

pub Move-Out :
    (eligible : ℕ) (q : Request) (s t : PlayerLifecycleState) → Move eligible q s t → Out s t
unfolding Out
Move-Out _ _ _ _ joins = tt
Move-Out _ _ _ _ dies = tt
Move-Out _ _ _ _ (waits tick delay h) = tt
Move-Out _ _ _ _ (keeps_waiting tick delay h) = tt
Move-Out _ _ _ _ (respawns tick delay h) = tt
Move-Out _ _ _ _ (respawns_late tick delay h) = tt
Move-Out _ _ _ _ suspends = tt
Move-Out _ _ _ _ suspends_dead = tt
Move-Out _ _ _ _ suspends_waiting = tt
Move-Out _ _ _ _ reclaims = tt
Move-Out _ _ _ _ (removes s) = removed-Out s
Move-Out _ _ _ _ (is_dropped s) = removed-Out s
