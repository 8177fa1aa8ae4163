-- ===== src/World/Registry/Tests.antt =====
-- A registry with two live entities and a subscriber, and what the theorems say of it.
use stalker_mp.Base.{
  ℕ, zero, suc, ◌+◌, ◌<◌, ◌≡◌, ◌≢◌, refl, ◌⊎◌, true, false, List, [], ◌∷◌, none, some, All, ◌==◌,
  if◌then◌else◌, arith, u32, u64, is_some, ErrorCode, ok, err,
}
use stalker_mp.Keyed.{lower_bound}
use stalker_mp.Keyed.Laws.{Ascending}
use stalker_mp.World.Types.{
  EntityHandle, EntityRecord, EntityMetadata, EntityRegistrationState, record_key, handle_is_valid,
  EntityCategory, EntitySpawnSource,
}
use stalker_mp.World.Registry.{
  EntityRegistry, last_generation, register_entity, unregister_entity, find_by_handle, is_used,
  reserve_entity, empty,
}
use stalker_mp.World.Registry.Laws.{
  live, told, unregister_entity_lem, register_entity_lem, registered_record,
}
use stalker_mp.World.Registry.Moves.{Call, registers, unregisters, restores, step, restored_at}
use stalker_mp.World.Registry.Queries.{validate_integrity, is_healthy}
use stalker_mp.World.Registry.Stale.{IsValid, Admissible, step-IsValid, run, unregistered_stale}
use stalker_mp.World.Registry.Reserve.{reserve_entity_lem}
use stalker_mp.World.Registry.Integrity.{run-empty-healthy, empty-IsValid}

abbrev stalker : EntityMetadata
stalker = record {
  category = EntityCategory.npc;
  section = 115 ∷ [];
  flags = 0;
  creation_tick = 3;
  spawn_source = EntitySpawnSource.dynamic;
  state = EntityRegistrationState.constructed;
}

abbrev entity : ℕ → ℕ → EntityRecord
entity id generation = registered_record id generation (97 ∷ []) stalker

abbrev two_entities : EntityRegistry
two_entities = record {
  records = entity 4 1 ∷ entity 9 2 ∷ [];
  generation_by_id = (9, 2) ∷ (4, 1) ∷ (0x10000, 1) ∷ [];
  on_registered = record { id = 1; callback = 70 } ∷ [];
  on_unregistered = [];
  on_restored = [];
  next_subscription_id = 2;
  next_reserved_id = 0x10000;
  dispatching_events = false;
  destroyed_count = 1;
}

two_entities-Ascending : Ascending record_key two_entities.records
two_entities-Ascending = (omega arith, tt)

abbrev history : List Call
history =
    registers 4 [] stalker
    ∷ unregisters (record { id = 4; generation = 1 })
    ∷ restores 7 2 [] stalker
    ∷ []

history-Admissible : All (Admissible 2) history
history-Admissible = (tt, (tt, (omega arith, tt)))

abbrev one_entity : EntityRegistry
one_entity = step empty (registers 7 [] stalker)

one_entity-IsValid : IsValid 2 one_entity
one_entity-IsValid =
    step-IsValid 1 empty (registers 7 [] stalker) (empty-IsValid 1) (omega arith) tt

not_restored : All (λ c. restored_at c 7 ≢ some 1) history
not_restored = ((λ e. cc), ((λ e. cc), ((λ e. ground arith), tt)))

unregister_one : (unregister_entity one_entity (record { id = 7; generation = 1 })).0 ≡ ok tt
unfolding step register_entity unregister_entity empty lower_bound
unregister_one = refl

used_first : (k : ℕ) → k < 1 → is_used two_entities (0x10000 + k) ≡ true
unfolding is_used lower_bound
used_first zero h = refl
used_first (suc k) h = absurd (omega arith)

unused_next : is_used two_entities 0x10001 ≡ false
unfolding is_used lower_bound
unused_next = refl

register_entity_lem_example :
    let r : EntityRegistry = two_entities in
    let id : ℕ = 6 in
    let name : List ℕ = 98 ∷ [] in
    let metadata : EntityMetadata = stalker in
    let (out, r', events) = register_entity r id name metadata in
    let generation = u32 (last_generation r id + 1) in
    let e = registered_record id generation name metadata in
    (r.dispatching_events ≡ true) × (out ≡ err ErrorCode.internal) × (r' ≡ r) × (events ≡ [])
    ⊎ (r.dispatching_events ≡ false)
      × (id ≡ 0)
      × (out ≡ err ErrorCode.invalid_argument)
      × (r' ≡ r)
      × (events ≡ [])
    ⊎ (r.dispatching_events ≡ false)
      × (0 < id)
      × (is_some (live r id) ≡ true)
      × (out ≡ err ErrorCode.already_exists)
      × (r' ≡ r)
      × (events ≡ [])
    ⊎ (r.dispatching_events ≡ false)
      × (0 < id)
      × (live r id ≡ none)
      × (out ≡ ok (record { id = id; generation = generation }))
      × ((j : ℕ) → live r' j ≡ (if id == j then some e else live r j))
      × ((j : ℕ) → last_generation r' j ≡ (if id == j then generation else last_generation r j))
      × (events ≡ told r.on_registered e)
register_entity_lem_example =
    register_entity_lem two_entities 6 (98 ∷ []) stalker two_entities-Ascending

unregister_entity_lem_example :
    let r : EntityRegistry = two_entities in
    let h : EntityHandle = record { id = 9; generation = 2 } in
    let (out, r', events) = unregister_entity r h in
    ((j : ℕ) → last_generation r' j ≡ last_generation r j)
    × ((r.dispatching_events ≡ true) × (out ≡ err ErrorCode.internal) × (r' ≡ r) × (events ≡ [])
        ⊎ (r.dispatching_events ≡ false)
          × (handle_is_valid h ≡ false)
          × (out ≡ err ErrorCode.invalid_argument)
          × (r' ≡ r)
          × (events ≡ [])
        ⊎ (r.dispatching_events ≡ false)
          × (handle_is_valid h ≡ true)
          × (find_by_handle r h ≡ none)
          × (out ≡ err ErrorCode.not_found)
          × (r' ≡ r)
          × (events ≡ [])
        ⊎ ((e : EntityRecord) × (r.dispatching_events ≡ false)
            × (handle_is_valid h ≡ true)
            × (live r h.id ≡ some e)
            × (e.handle.generation ≡ h.generation)
            × (out ≡ ok tt)
            × ((j : ℕ) → live r' j ≡ (if h.id == j then none else live r j))
            × (r'.destroyed_count ≡ u64 (r.destroyed_count + 1))
            × (events ≡ told r.on_unregistered e)))
unregister_entity_lem_example =
    unregister_entity_lem two_entities (record { id = 9; generation = 2 }) two_entities-Ascending

reserve_entity_lem_example :
    let r : EntityRegistry = two_entities in
    let d : ℕ = 1 in
    reserve_entity r
    ≡ some (
      ok (r.next_reserved_id + d),
      record r { next_reserved_id = u32 (r.next_reserved_id + d + 1) },
    )
reserve_entity_lem_example =
    reserve_entity_lem two_entities 1 refl (omega arith) used_first unused_next

unregistered_stale_example :
    let h : EntityHandle = record { id = 7; generation = 1 } in
    let cs : List Call = history in
    let r : EntityRegistry = one_entity in
    find_by_handle (run (unregister_entity r h).1 cs) h ≡ none
unregistered_stale_example =
    unregistered_stale 2 one_entity (record { id = 7; generation = 1 }) history one_entity-IsValid
      (omega arith) history-Admissible not_restored unregister_one

run-empty-healthy_example :
    let cs : List Call = history in is_healthy (validate_integrity (run empty cs)) ≡ true
run-empty-healthy_example = run-empty-healthy 2 history (omega arith) history-Admissible
