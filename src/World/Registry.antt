-- ===== src/World/Registry.antt =====
-- world/EntityRegistry.cpp: the live entities by ascending id, the last generation that each id got,
-- and the subscribers. A callback is a number, 0 the empty function; what is told to whom is the list of
-- events, in order. While callbacks run, `dispatching_events` is set, so the model of a call that a
-- callback makes is that call on a registry with the flag set.
pub mod Queries
pub mod Subscriptions
pub mod Laws
pub mod Tests
pub mod Statistics
pub mod Integrity
pub mod Stale
pub mod Moves
pub mod Reserve
pub mod States
use stalker_mp.Base.{
  ℕ, zero, suc, ◌+◌, ◌^◌, Bool, true, false, ◌&&◌, ◌||◌, not, List, [], ◌∷◌, ◌++◌, map, Option,
  none, some, length, get_elem?, insert_at, erase_at, set, keep, leb, ltb, ◌==◌, if◌then◌else◌,
  is_some, u32, u64, ErrorCode, Expected, ok, err,
}
use stalker_mp.Keyed.{Index, find_index, lower_bound, is_at}
use stalker_mp.World.Types.{
  EntityHandle, EntityRecord, EntityMetadata, EntityRegistrationState, EntityCategory, record_key,
  handle_is_valid,
}

pub record Subscription : Type 0 where
  pub id : ℕ
  pub callback : ℕ

-- A callback with the record that it is given.
pub data Event : Type 0 where
  tells : ℕ → EntityRecord → Event

pub record EntityRegistry : Type 0 where
  pub records : List EntityRecord
  pub generation_by_id : Index
  pub on_registered : List Subscription
  pub on_unregistered : List Subscription
  pub on_restored : List Subscription
  pub next_subscription_id : ℕ
  pub next_reserved_id : ℕ
  pub dispatching_events : Bool
  pub destroyed_count : ℕ

unfoldable pub empty : EntityRegistry
empty = record {
  records = [];
  generation_by_id = [];
  on_registered = [];
  on_unregistered = [];
  on_restored = [];
  next_subscription_id = 1;
  next_reserved_id = 0x10000;
  dispatching_events = false;
  destroyed_count = 0;
}

abbrev pub EventExpected : Type 0 → Type 0
EventExpected A = Expected A × EntityRegistry × List Event

-- A call that fails: the registry stays, and nobody is told.
abbrev pub refused : {A : Type 0} → ErrorCode → EntityRegistry → EventExpected A
refused e r = (err e, r, [])

-- `m_generationById[id]`, 0 where there is none.
abbrev pub last_generation : EntityRegistry → ℕ → ℕ
last_generation r id = elim (find_index id r.generation_by_id) [ none ↦ 0 | some g ↦ g ]

-- `m_generationById[id] = generation`.
unfoldable pub assign : ℕ → ℕ → Index → Index
assign id generation [] = (id, generation) ∷ []
assign id generation ((j, g) ∷ m) =
    if j == id then (id, generation) ∷ m else (j, g) ∷ assign id generation m

-- The subscribers with a callback, in registration order.
unfoldable pub deliver : List Subscription → EntityRecord → List Event
deliver [] e = []
deliver (sub ∷ subs) e =
    let rest = deliver subs e in if sub.callback == 0 then rest else tells sub.callback e ∷ rest

-- `none` is kInvalidIndex.
unfoldable pub position_of : EntityRegistry → ℕ → Option ℕ
position_of r id =
    let pos = lower_bound record_key r.records id in
    if is_at record_key r.records pos id then some pos else none

register_new : EntityRegistry → ℕ → List ℕ → EntityMetadata → EventExpected EntityHandle
unfolding deliver assign
register_new r id name metadata =
    let generation = u32 (last_generation r id + 1) in
    let e : EntityRecord = record {
      handle = record { id = id; generation = generation };
      name = name;
      metadata = record metadata { state = EntityRegistrationState.registered };
    } in
    (
      ok (record { id = id; generation = generation }),
      record r {
        generation_by_id = assign id generation r.generation_by_id;
        records = insert_at r.records (lower_bound record_key r.records id) e;
      },
      deliver r.on_registered e,
    )

unfoldable pub register_entity :
    EntityRegistry → ℕ → List ℕ → EntityMetadata → EventExpected EntityHandle
unfolding register_new
register_entity r id name metadata =
    if r.dispatching_events
    then refused ErrorCode.internal r
    else if id == 0
    then refused ErrorCode.invalid_argument r
    else if is_at record_key r.records (lower_bound record_key r.records id) id
    then refused ErrorCode.already_exists r
    else register_new r id name metadata

unregister_at : EntityRegistry → EntityHandle → ℕ → Option EntityRecord → EventExpected (Unit {0})
unfolding deliver
unregister_at r h i none = refused ErrorCode.not_found r
unregister_at r h i (some e) =
    if e.handle.generation == h.generation
    then (
      ok tt,
      record r { records = erase_at r.records i; destroyed_count = u64 (r.destroyed_count + 1) },
      deliver r.on_unregistered e,
    )
    else refused ErrorCode.not_found r

unfoldable pub unregister_entity : EntityRegistry → EntityHandle → EventExpected (Unit {0})
unfolding position_of unregister_at
unregister_entity r h =
    if r.dispatching_events
    then refused ErrorCode.internal r
    else if handle_is_valid h
    then elim (position_of r h.id) [
      | none ↦ refused ErrorCode.not_found r
      | some i ↦ unregister_at r h i (get_elem? r.records i)
    ]
    else refused ErrorCode.invalid_argument r

-- An id that the map lacks has last generation 0, below every generation that gets here, so it is assigned.
restore_new : EntityRegistry → ℕ → ℕ → List ℕ → EntityMetadata → EventExpected EntityHandle
unfolding deliver assign
restore_new r id generation name metadata =
    let e : EntityRecord = record {
      handle = record { id = id; generation = generation };
      name = name;
      metadata = metadata;
    } in
    (
      ok (record { id = id; generation = generation }),
      record r {
        generation_by_id =
            if ltb (last_generation r id) generation
            then assign id generation r.generation_by_id
            else r.generation_by_id;
        records = insert_at r.records (lower_bound record_key r.records id) e;
      },
      deliver r.on_restored e,
    )

unfoldable pub restore_entity :
    EntityRegistry → ℕ → ℕ → List ℕ → EntityMetadata → EventExpected EntityHandle
unfolding restore_new
restore_entity r id generation name metadata =
    if r.dispatching_events
    then refused ErrorCode.internal r
    else if id == 0
    then refused ErrorCode.invalid_argument r
    else if generation == 0
    then refused ErrorCode.invalid_argument r
    else if is_at record_key r.records (lower_bound record_key r.records id) id
    then refused ErrorCode.already_exists r
    else restore_new r id generation name metadata

unfoldable pub find_by_entity_id : EntityRegistry → ℕ → Option EntityRecord
unfolding position_of
find_by_entity_id r id = elim (position_of r id) [ none ↦ none | some i ↦ get_elem? r.records i ]

unfoldable pub find_by_handle : EntityRegistry → EntityHandle → Option EntityRecord
unfolding find_by_entity_id
find_by_handle r h = elim (find_by_entity_id r h.id) [
  | none ↦ none
  | some e ↦ if e.handle.generation == h.generation then some e else none
]

unfoldable pub contains : EntityRegistry → ℕ → Bool
unfolding position_of
contains r id = is_some (position_of r id)

unfoldable pub get_record : EntityRegistry → EntityHandle → Expected EntityRecord
unfolding find_by_handle
get_record r h = elim (find_by_handle r h) [ none ↦ err ErrorCode.not_found | some e ↦ ok e ]

unfoldable pub is_legal_transition : EntityRegistrationState → EntityRegistrationState → Bool
is_legal_transition EntityRegistrationState.registered EntityRegistrationState.initialized = true
is_legal_transition EntityRegistrationState.registered EntityRegistrationState.pending_removal =
    true
is_legal_transition EntityRegistrationState.initialized EntityRegistrationState.active = true
is_legal_transition EntityRegistrationState.initialized EntityRegistrationState.pending_removal =
    true
is_legal_transition EntityRegistrationState.active EntityRegistrationState.pending_removal = true
is_legal_transition _ _ = false

set_state_at :
    EntityRegistry
    → ℕ
    → EntityRegistrationState
    → EntityRecord
    → Expected (Unit {0}) × EntityRegistry
unfolding is_legal_transition
set_state_at r i target e =
    if is_legal_transition e.metadata.state target
    then (
      ok tt,
      record r {
        records = set r.records i (record e { metadata = record e.metadata { state = target } });
      },
    )
    else (err ErrorCode.invalid_argument, r)

-- `MutableRecord`: the position and the record of a live handle.
unfoldable pub mutable_record : EntityRegistry → EntityHandle → Option (ℕ × EntityRecord)
unfolding position_of
mutable_record r h =
    if handle_is_valid h
    then elim (position_of r h.id) [
      | none ↦ none
      | some i ↦ elim (get_elem? r.records i) [
        | none ↦ none
        | some e ↦ if e.handle.generation == h.generation then some (i, e) else none
      ]
    ]
    else none

unfoldable pub set_registration_state :
    EntityRegistry → EntityHandle → EntityRegistrationState → Expected (Unit {0}) × EntityRegistry
unfolding mutable_record set_state_at
set_registration_state r h target =
    if r.dispatching_events
    then (err ErrorCode.internal, r)
    else if handle_is_valid h
    then elim (mutable_record r h) [
      | none ↦ (err ErrorCode.not_found, r)
      | some (i, e) ↦ set_state_at r i target e
    ]
    else (err ErrorCode.invalid_argument, r)

unfoldable pub get_registration_state :
    EntityRegistry → EntityHandle → Expected EntityRegistrationState
unfolding find_by_handle
get_registration_state r h = elim (find_by_handle r h) [
  | none ↦ err ErrorCode.not_found
  | some e ↦ ok e.metadata.state
]

pub data HandleValidity : Type 0 where
  valid null_handle unknown_id stale_generation : HandleValidity

unfoldable pub classify_handle : EntityRegistry → EntityHandle → HandleValidity
unfolding find_by_entity_id
classify_handle r h =
    if handle_is_valid h
    then elim (find_by_entity_id r h.id) [
      | none ↦ HandleValidity.unknown_id
      | some e ↦
          (if e.handle.generation == h.generation
            then HandleValidity.valid
            else HandleValidity.stale_generation)
    ]
    else HandleValidity.null_handle

-- `Contains(n) || m_generationById.count(n) > 0`.
unfoldable pub is_used : EntityRegistry → ℕ → Bool
unfolding contains
is_used r n = contains r n || is_some (find_index n r.generation_by_id)

-- The loop of `ReserveEntity`: the first unused id from n on, tried at most `fuel` times.
unfoldable pub first_unused : ℕ → EntityRegistry → ℕ → Option ℕ
unfolding is_used
first_unused zero r n = none
first_unused (suc fuel) r n = elim (is_used r n) [
  | true ↦ first_unused fuel r (u32 (n + 1))
  | false ↦ some n
]

-- All 2^32 ids are tried before the loop would start again; `none` is the loop that does not end.
unfoldable pub reserve_entity : EntityRegistry → Option (Expected ℕ × EntityRegistry)
unfolding first_unused
reserve_entity r =
    if r.dispatching_events
    then some (err ErrorCode.internal, r)
    else (elim (first_unused (2 ^ 32) r r.next_reserved_id) [
      | none ↦ none
      | some n ↦ some (ok n, record r { next_reserved_id = u32 (n + 1) })
    ])

unfoldable pub clear : EntityRegistry → EntityRegistry
unfolding empty
clear r = empty
