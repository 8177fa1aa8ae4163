-- ===== src/World/Registry/Laws.antt =====
-- The registry as a finite map from ids to live records, with the generations that were given out.
use stalker_mp.Base.{
  map, keep, not, ℕ, ◌+◌, ◌<◌, ◌≡◌, refl, sym, ◌∙◌, ◌⊎◌, inl, inr, true, false, List, [], ◌∷◌,
  Option, none, some, get_elem?, arith, ◌==◌, ==_iff, if◌then◌else◌, is_some, u32, u64, ErrorCode,
  ok, err, Option-cases, Bool-cases, max,
}
use stalker_mp.Keyed.{Index, find_index}
use stalker_mp.Keyed.Laws.{Ascending, lookup, index_of}
use stalker_mp.Keyed.Ascending.{is_at-Ascending, lookup-insert_Ascending, lookup-erase_Ascending}
use stalker_mp.Keyed.Position.{lower_bound-index_of, get_elem?-lower_bound}
use stalker_mp.World.Types.{
  EntityHandle, EntityRecord, EntityMetadata, EntityRegistrationState, record_key, handle_is_valid,
}
use stalker_mp.World.Registry.{
  EntityRegistry, Subscription, Event, tells, assign, deliver, last_generation, position_of,
  register_entity, unregister_entity, restore_entity, find_by_entity_id, find_by_handle,
}

-- The abstract view.
unfoldable pub live : EntityRegistry → ℕ → Option EntityRecord
live r id = lookup record_key r.records id

pub find-live :
    (r : EntityRegistry) (id : ℕ)
    → Ascending record_key r.records
    → find_by_entity_id r id ≡ live r id
unfolding find_by_entity_id position_of live
find-live r id a = ground (
  arith,
  is_at-Ascending record_key id r.records a,
  get_elem?-lower_bound record_key id r.records a,
)

-- A handle finds the live record of its id if the generations agree.
pub find_by_handle-live :
    (r : EntityRegistry) (h : EntityHandle)
    → Ascending record_key r.records
    → find_by_handle r h ≡ elim (live r h.id) [
      | none ↦ none
      | some e ↦ if e.handle.generation == h.generation then some e else none
    ]
unfolding find_by_handle
find_by_handle-live r h a = rw (find_by_handle, find-live r h.id a)

find_index-assign :
    (id j g : ℕ) (m : Index)
    → find_index j (assign id g m) ≡ (if id == j then some g else find_index j m)
unfolding assign
find_index-assign id j g [] = refl
find_index-assign id j g ((k, h) ∷ m) = ground (arith, find_index-assign id j g m)

pub last_generation-assign :
    (r : EntityRegistry) (id j g : ℕ)
    → last_generation (record r { generation_by_id = assign id g r.generation_by_id }) j
      ≡ (if id == j then g else last_generation r j)
last_generation-assign r id j g = ground (arith, find_index-assign id j g r.generation_by_id)

-- What the subscribers with a callback are told: each once, in order, with the record.
abbrev pub told : List Subscription → EntityRecord → List Event
told subs e = map (λ sub. tells sub.callback e) (keep (λ sub. not (sub.callback == 0)) subs)

deliver-told : (subs : List Subscription) (e : EntityRecord) → deliver subs e ≡ told subs e
unfolding deliver
deliver-told [] e = refl
deliver-told (sub ∷ subs) e = ground (arith, deliver-told subs e)

-- The record that registration makes.
abbrev pub registered_record : ℕ → ℕ → List ℕ → EntityMetadata → EntityRecord
registered_record id generation name metadata = record {
  handle = record { id = id; generation = generation };
  name = name;
  metadata = record metadata { state = EntityRegistrationState.registered };
}

-- Registration with records in ascending order, on each branch. During a dispatch it is refused as an
-- internal error, and outside one for id 0 and for a live id; then nothing changes. Otherwise the id
-- becomes live in the state `registered` under the generation after the last that it had, no other entity
-- and no other id's generation changes, and each subscriber with a callback is told once, in order, with
-- the new record.
pub register_entity_lem :
    (r : EntityRegistry) (id : ℕ) (name : List ℕ) (metadata : EntityMetadata)
    → Ascending record_key r.records
    → let (out, r', events) = register_entity r id name metadata in
      let generation = u32 (last_generation r id + 1) in
      let e = registered_record id generation name metadata in
      (r.dispatching_events ≡ true) × (out ≡ err ErrorCode.internal) × (r' ≡ r) × (events ≡ [])
      ⊎ (r.dispatching_events ≡ false)
        × (id ≡ 0)
        × (out ≡ err ErrorCode.invalid_argument)
        × (r' ≡ r)
        × (events ≡ [])
      ⊎ (r.dispatching_events ≡ false)
        × (0 < id)
        × (is_some (live r id) ≡ true)
        × (out ≡ err ErrorCode.already_exists)
        × (r' ≡ r)
        × (events ≡ [])
      ⊎ (r.dispatching_events ≡ false)
        × (0 < id)
        × (live r id ≡ none)
        × (out ≡ ok (record { id = id; generation = generation }))
        × ((j : ℕ) → live r' j ≡ (if id == j then some e else live r j))
        × ((j : ℕ) → last_generation r' j ≡ (if id == j then generation else last_generation r j))
        × (events ≡ told r.on_registered e)
unfolding register_entity live
register_entity_lem r id name metadata a = ground (
  arith,
  is_at-Ascending record_key id r.records a,
  λ (j : ℕ).
      lookup-insert_Ascending record_key j r.records
        (registered_record id (u32 (last_generation r id + 1)) name metadata) a,
  λ (j : ℕ). last_generation-assign r id j (u32 (last_generation r id + 1)),
  deliver-told r.on_registered
      (registered_record id (u32 (last_generation r id + 1)) name metadata),
)

pub live_at :
    (r : EntityRegistry) (id : ℕ)
    → Ascending record_key r.records
    → elim (position_of r id) [ none ↦ none | some i ↦ get_elem? r.records i ] ≡ live r id
unfolding find_by_entity_id
live_at r id a = find-live r id a

-- A live id has a position, at which it can be erased or replaced.
pub position_of-some :
    (r : EntityRegistry) (id i : ℕ)
    → Ascending record_key r.records
    → position_of r id ≡ some i
    → (index_of record_key 0 r.records id ≡ some i)
      × (get_elem? r.records i ≡ live r id)
      × (is_some (live r id) ≡ true)
unfolding position_of live
position_of-some r id i a h = ground (
  arith,
  is_at-Ascending record_key id r.records a,
  get_elem?-lower_bound record_key id r.records a,
  lower_bound-index_of record_key id r.records a,
)

-- Unregistering with records in ascending order, on each branch. During a dispatch it is refused as an
-- internal error; outside one an invalid handle is refused as such, and a valid one that finds no entity
-- as not found. It succeeds exactly outside a dispatch, for a valid handle whose id is live with that
-- generation: the entity is gone, every other stays, the count of the destroyed goes up, the subscribers
-- are told with its record. Otherwise nothing changes. No generation is forgotten.
pub unregister_entity_lem :
    (r : EntityRegistry) (h : EntityHandle)
    → Ascending record_key r.records
    → let (out, r', events) = unregister_entity r h in
      ((j : ℕ) → last_generation r' j ≡ last_generation r j)
      × ((r.dispatching_events ≡ true) × (out ≡ err ErrorCode.internal) × (r' ≡ r) × (events ≡ [])
          ⊎ (r.dispatching_events ≡ false)
            × (handle_is_valid h ≡ false)
            × (out ≡ err ErrorCode.invalid_argument)
            × (r' ≡ r)
            × (events ≡ [])
          ⊎ (r.dispatching_events ≡ false)
            × (handle_is_valid h ≡ true)
            × (find_by_handle r h ≡ none)
            × (out ≡ err ErrorCode.not_found)
            × (r' ≡ r)
            × (events ≡ [])
          ⊎ ((e : EntityRecord) × (r.dispatching_events ≡ false)
              × (handle_is_valid h ≡ true)
              × (live r h.id ≡ some e)
              × (e.handle.generation ≡ h.generation)
              × (out ≡ ok tt)
              × ((j : ℕ) → live r' j ≡ (if h.id == j then none else live r j))
              × (r'.destroyed_count ≡ u64 (r.destroyed_count + 1))
              × (events ≡ told r.on_unregistered e)))
unfolding unregister_entity find_by_handle find_by_entity_id live
unregister_entity_lem r h a = elim (Option-cases (position_of r h.id)) [
  | inl n ↦ ground (arith, live_at r h.id a)
  | inr (i, p) ↦ elim (Option-cases (get_elem? r.records i)) [
    | inl g ↦ ground (arith, position_of-some r h.id i a p)
    | inr (e, g) ↦ elim (Bool-cases (e.handle.generation == h.generation)) [
      | inl q ↦ elim (Bool-cases (r.dispatching_events)) [
        | inl d ↦ ground arith
        | inr d ↦ elim (Bool-cases (handle_is_valid h)) [
          | inl v ↦
              rw (d, v, p, g, q)
                (
                  (λ j. refl),
                  inr (
                      inr (
                        inr (
                          e,
                          refl,
                          refl,
                          sym (position_of-some r h.id i a p).1 ∙ g,
                          (==_iff _ _).0 q,
                          refl,
                          (λ j.
                              lookup-erase_Ascending record_key h.id j r.records {i = i} a
                                (position_of-some r h.id i a p).0),
                          refl,
                          deliver-told r.on_unregistered e,
                        ))),
                )
          | inr v ↦ ground arith
        ]
      ]
      | inr q ↦ ground arith
    ]
  ]
]

-- Restoring with records in ascending order, on each branch. It is refused, and nothing changes, during a
-- dispatch, for id 0, for generation 0 and for a live id. Otherwise the id becomes live under the given
-- generation with the state of the given metadata, no other entity changes, the last generation of the id
-- is raised to the given one if it was below, and the subscribers are told.
pub restore_entity_lem :
    (r : EntityRegistry) (id generation : ℕ) (name : List ℕ) (metadata : EntityMetadata)
    → Ascending record_key r.records
    → let (out, r', events) = restore_entity r id generation name metadata in
      let handle : EntityHandle = record { id = id; generation = generation } in
      let e : EntityRecord = record { handle = handle; name = name; metadata = metadata } in
      (r.dispatching_events ≡ true) × (out ≡ err ErrorCode.internal) × (r' ≡ r) × (events ≡ [])
      ⊎ (id ≡ 0 ⊎ generation ≡ 0)
        × (out ≡ err ErrorCode.invalid_argument)
        × (r' ≡ r)
        × (events ≡ [])
      ⊎ (is_some (live r id) ≡ true)
        × (out ≡ err ErrorCode.already_exists)
        × (r' ≡ r)
        × (events ≡ [])
      ⊎ (0 < id)
        × (0 < generation)
        × (live r id ≡ none)
        × (out ≡ ok handle)
        × ((j : ℕ) → live r' j ≡ (if id == j then some e else live r j))
        × ((j : ℕ)
            → last_generation r' j
              ≡ (if id == j then max (last_generation r id) generation else last_generation r j))
        × (events ≡ told r.on_restored e)
unfolding restore_entity live
restore_entity_lem r id generation name metadata a = ground (
  arith,
  is_at-Ascending record_key id r.records a,
  λ (j : ℕ).
      lookup-insert_Ascending record_key j r.records
        (record {
          handle = record { id = id; generation = generation };
          name = name;
          metadata = metadata;
        })
        a,
  λ (j : ℕ). last_generation-assign r id j generation,
  deliver-told r.on_restored (record {
    handle = record { id = id; generation = generation };
    name = name;
    metadata = metadata;
  }),
)
