-- ===== src/Replication/Delta/Tests.antt =====
-- A delta of one entity each that stays, changes, goes and comes.
use stalker_mp.Base.{
  ℕ, ◌+◌, ◌≤◌, ◌<◌, ◌≡◌, ◌⊎◌, Bool, List, [], ◌∷◌, length, ◌==◌, arith, ErrorCode, ok, err,
}
use stalker_mp.Keyed.Laws.{lookup}
use stalker_mp.Replication.Delta.{
  EntityReplicationState, entity_key, entity_changes, encode_entity_delta, next_entity_baseline,
}
use stalker_mp.Replication.Delta.Laws.{
  apply_changes, Sent, Agree, AgreeFields, encode_entity_delta_lem,
}

abbrev entity : ℕ → ℕ → ℕ → EntityReplicationState ℕ
entity id position version = record {
  id = id;
  position = position;
  velocity = 0;
  state_flags = 1;
  version = version;
  priority = 0;
  reliability = 0;
}

abbrev baseline : List (EntityReplicationState ℕ)
baseline = entity 2 40 7 ∷ entity 4 41 1 ∷ entity 6 42 3 ∷ []

abbrev current : List (EntityReplicationState ℕ)
current = entity 2 40 0 ∷ entity 5 44 0 ∷ entity 6 43 0 ∷ []

abbrev same : ℕ → ℕ → Bool
same a b = a == b

encode_entity_delta_lem_example :
    let same_vec : ℕ → ℕ → Bool = same in
    let bs : List (EntityReplicationState ℕ) = baseline in
    let cs : List (EntityReplicationState ℕ) = current in
    let max_entities : ℕ = 2 in
    let d = entity_changes same_vec bs cs in
    let emitted = length d.added + length d.changed in
    (max_entities < emitted)
      × (encode_entity_delta same_vec bs cs max_entities ≡ err ErrorCode.invalid_argument)
    ⊎ (emitted ≤ max_entities)
      × (encode_entity_delta same_vec bs cs max_entities ≡ ok d)
      × ((id : ℕ)
          → Agree same_vec
              (apply_changes same_vec d bs id)
              (lookup entity_key (next_entity_baseline same_vec bs cs) id)
            × AgreeFields same_vec (apply_changes same_vec d bs id) (lookup entity_key cs id))
      × ((id : ℕ)
          → Sent same_vec
              (lookup entity_key bs id)
              (lookup entity_key cs id)
              (lookup entity_key d.changed id))
encode_entity_delta_lem_example =
    encode_entity_delta_lem same baseline current 2 (omega arith, (omega arith, tt))
      (omega arith, (omega arith, tt)) (λ x. ground arith)
