-- ===== src/World/Registry/States.antt =====
-- The registration states: `SetRegistrationState` and `ClassifyHandle` of world/EntityRegistry.cpp.
use stalker_mp.Base.{
  ℕ, ◌≡◌, ◌≢◌, refl, sym, ◌∙◌, ◌⊎◌, ◌↔◌, inl, inr, true, false, none, some, get_elem?, set, arith,
  ◌==◌, if◌then◌else◌, ErrorCode, ok, err, Option-cases, Bool-cases, is_some,
}
use stalker_mp.Keyed.Laws.{Ascending, lookup-key}
use stalker_mp.Keyed.Replace.{lookup-set, Ascending-set}
use stalker_mp.World.Types.{
  EntityHandle, EntityRecord, EntityRegistrationState, record_key, handle_is_valid,
}
use stalker_mp.World.Registry.{
  EntityRegistry, position_of, find_by_handle, find_by_entity_id, is_legal_transition,
  set_registration_state, classify_handle, HandleValidity,
}
use stalker_mp.World.Registry.Laws.{live, find-live, find_by_handle-live, position_of-some}

-- A record in another state.
abbrev pub with_state : EntityRegistrationState → EntityRecord → EntityRecord
with_state target e = record e { metadata = record e.metadata { state = target } }

set_at :
    (r : EntityRegistry) (id i j : ℕ) (target : EntityRegistrationState) (e : EntityRecord)
    → Ascending record_key r.records
    → position_of r id ≡ some i
    → get_elem? r.records i ≡ some e
    → live (record r { records = set r.records i (with_state target e) }) j
      ≡ (if id == j then some (with_state target e) else live r j)
unfolding live
set_at r id i j target e a p g =
    lookup-set record_key i id j r.records (with_state target e) (position_of-some r id i a p).0
      (lookup-key record_key id r.records (sym (position_of-some r id i a p).1 ∙ g))

-- Setting a state with records in ascending order, on each branch. It succeeds exactly for a live handle
-- and a legal transition from the state that the entity is in; then that entity is in the new state, and
-- nothing else of it or of another entity changes. Otherwise nothing changes.
pub set_registration_state_lem :
    (r : EntityRegistry) (h : EntityHandle) (target : EntityRegistrationState)
    → Ascending record_key r.records
    → let (out, r') = set_registration_state r h target in
      (r.dispatching_events ≡ true) × (out ≡ err ErrorCode.internal) × (r' ≡ r)
      ⊎ (handle_is_valid h ≡ false) × (out ≡ err ErrorCode.invalid_argument) × (r' ≡ r)
      ⊎ (find_by_handle r h ≡ none) × (out ≡ err ErrorCode.not_found) × (r' ≡ r)
      ⊎ ((e : EntityRecord) × (find_by_handle r h ≡ some e)
          × ((is_legal_transition e.metadata.state target ≡ false)
                × (out ≡ err ErrorCode.invalid_argument)
                × (r' ≡ r)
              ⊎ (is_legal_transition e.metadata.state target ≡ true)
                × (out ≡ ok tt)
                × ((j : ℕ)
                    → live r' j ≡ (if h.id == j then some (with_state target e) else live r j))))
unfolding set_registration_state find_by_handle find_by_entity_id
set_registration_state_lem r h target a = elim (Option-cases (position_of r h.id)) [
  | inl n ↦ ground arith
  | inr (i, p) ↦ elim (Option-cases (get_elem? r.records i)) [
    | inl g ↦ ground arith
    | inr (e, g) ↦ elim (Bool-cases (e.handle.generation == h.generation)) [
      | inl q ↦ elim (Bool-cases (r.dispatching_events)) [
        | inl d ↦ ground arith
        | inr d ↦ elim (Bool-cases (handle_is_valid h)) [
          | inl v ↦ inr (
              inr (
                inr (e, ground arith, ground (arith, λ (j : ℕ). set_at r h.id i j target e a p g))))
          | inr v ↦ ground arith
        ]
      ]
      | inr q ↦ ground arith
    ]
  ]
]

-- With records in ascending order, a handle is classified by what the registry holds under its id: null
-- where its id or generation is zero; if not, unknown where the id is not live, valid where it is live
-- with that generation, stale where with another.
pub classify_handle_lem :
    (r : EntityRegistry) (h : EntityHandle)
    → Ascending record_key r.records
    → ((classify_handle r h ≡ HandleValidity.null_handle) ↔ (h.id ≡ 0 ⊎ h.generation ≡ 0))
      × ((classify_handle r h ≡ HandleValidity.valid)
          ↔ ((h.id ≢ 0) × (h.generation ≢ 0) × (is_some (find_by_handle r h) ≡ true)))
      × ((classify_handle r h ≡ HandleValidity.unknown_id)
          ↔ ((h.id ≢ 0) × (h.generation ≢ 0) × (live r h.id ≡ none)))
      × ((classify_handle r h ≡ HandleValidity.stale_generation) ↔ (
          (h.id ≢ 0)
          × (h.generation ≢ 0)
          × (is_some (live r h.id) ≡ true)
          × (find_by_handle r h ≡ none)))
unfolding classify_handle
classify_handle_lem r h a = elim (Option-cases (live r h.id)) [
  | inl n ↦ rw (find_by_handle-live r h a, find-live r h.id a, n) (ground arith)
  | inr (e, l) ↦
      rw (find_by_handle-live r h a, find-live r h.id a, l)
        (elim (Bool-cases (e.handle.generation == h.generation)) [
          | inl q ↦ rw q (ground arith)
          | inr q ↦ rw q (ground arith)
        ])
]

-- Setting a state keeps the order of the records.
pub set_state-Ascending :
    (r : EntityRegistry) (h : EntityHandle) (target : EntityRegistrationState)
    → Ascending record_key r.records
    → Ascending record_key (set_registration_state r h target).1.records
unfolding set_registration_state
set_state-Ascending r h target a = elim (Option-cases (position_of r h.id)) [
  | inl n ↦ ground arith
  | inr (i, p) ↦ elim (Option-cases (get_elem? r.records i)) [
    | inl g ↦ ground arith
    | inr (e, g) ↦
        ground (arith, Ascending-set record_key i r.records (with_state target e) a g refl)
  ]
]
