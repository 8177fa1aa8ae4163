-- ===== src/Player/Registry/Tests.antt =====
-- Two players, and what the theorems say of them.
use stalker_mp.Base.{ℕ, ◌≤◌, ◌≡◌, some, List, [], ◌∷◌, none, length, arith}
use stalker_mp.Keyed.{lower_bound}
use stalker_mp.Keyed.Laws.{Ascending}
use stalker_mp.Player.Types.{PlayerRecord, player_key, PlayerLifecycleState, PlayerConnectionState}
use stalker_mp.Player.Registry.{PlayerRegistry, new_registry, lower_bound_index, search, insert}
use stalker_mp.Player.Registry.Search.{lower_bound_index_lem}
use stalker_mp.Player.Registry.Laws.{IsValid, player, new_registry-IsValid, Finds}
use stalker_mp.Player.Registry.History.{
  Call, inserts, allocates, run, Inserted, run-IsValid, run-new_registry, insert_lem,
}

abbrev player_with : ℕ → ℕ → PlayerRecord ℕ
player_with id connection = record {
  id = id;
  connection = connection;
  session_member = connection;
  entity = 0;
  lifecycle = PlayerLifecycleState.active;
  connection_state = PlayerConnectionState.connected;
  last_position = 0;
  join_tick = 5;
  respawn_eligible_tick = 0;
  reconnect_token = 77;
}

abbrev some_calls : List (Call ℕ)
some_calls =
    allocates
    ∷ inserts (player_with 4 9)
    ∷ inserts (player_with 2 8)
    ∷ inserts (player_with 4 7)
    ∷ []

abbrev two_players : PlayerRegistry ℕ
two_players = run (new_registry 3) some_calls

two_players-IsValid : IsValid two_players
two_players-IsValid = run-IsValid (new_registry 3) some_calls (new_registry-IsValid 3)

insert_lem_example :
    let p : PlayerRegistry ℕ = two_players in
    let r : PlayerRecord ℕ = player_with 3 5 in Inserted p r (insert p r)
insert_lem_example = insert_lem two_players (player_with 3 5) two_players-IsValid

run-new_registry_example :
    let n : ℕ = 3 in
    let cs : List (Call ℕ) = some_calls in
    let p = run (new_registry n) cs in
    Ascending player_key p.records
    × (player p 0 ≡ none)
    × (length p.records ≤ p.size_limit)
    × Finds p
run-new_registry_example = run-new_registry 3 some_calls

lower_bound_index_lem_example :
    let xs : List (PlayerRecord ℕ) = player_with 2 8 ∷ player_with 4 9 ∷ [] in
    let id : ℕ = 3 in
    let n : ℕ = 9 in
    (search xs id n 0 (length xs) ≡ some (lower_bound player_key xs id))
    × (lower_bound_index xs id ≡ lower_bound player_key xs id)
lower_bound_index_lem_example =
    lower_bound_index_lem (player_with 2 8 ∷ player_with 4 9 ∷ []) 3 9 (omega arith, tt)
      (omega arith)
