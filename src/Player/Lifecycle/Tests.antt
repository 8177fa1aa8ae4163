-- ===== src/Player/Lifecycle/Tests.antt =====
-- A dead player, and what the theorems say of it.
use stalker_mp.Base.{ℕ, ◌≡◌, ◌↔◌, refl, List, [], ◌∷◌, ok}
use stalker_mp.Player.Types.{PlayerLifecycleState, PlayerRecord, PlayerConnectionState}
use stalker_mp.Player.Lifecycle.Moves.{Move, Request, join, reclaim, respawn}
use stalker_mp.Player.Lifecycle.Laws.{answer, run, answer-Move, run-removed}

abbrev player_in : PlayerLifecycleState → PlayerRecord ℕ
player_in s = record {
  id = 3;
  connection = 8;
  session_member = 8;
  entity = 21;
  lifecycle = s;
  connection_state = PlayerConnectionState.connected;
  last_position = 0;
  join_tick = 5;
  respawn_eligible_tick = 40;
  reconnect_token = 77;
}

answer-Move_example :
    let r : PlayerRecord ℕ = player_in PlayerLifecycleState.dead in
    let q : Request = respawn 41 5 in
    let s : PlayerLifecycleState = PlayerLifecycleState.active in
    (answer r q ≡ ok s) ↔ Move r.respawn_eligible_tick q r.lifecycle s
answer-Move_example =
    answer-Move (player_in PlayerLifecycleState.dead) (respawn 41 5) PlayerLifecycleState.active

run-removed_example :
    let r : PlayerRecord ℕ = player_in PlayerLifecycleState.removed in
    let qs : List Request = join ∷ reclaim ∷ [] in
    (run r qs).lifecycle ≡ PlayerLifecycleState.removed
run-removed_example =
    run-removed (player_in PlayerLifecycleState.removed) (join ∷ reclaim ∷ []) refl
