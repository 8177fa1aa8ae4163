-- ===== src/World/Registry/Moves.antt =====
-- The registry as one small state machine per id: the generation of the live entity, if there is one, and
-- the last generation that was given out. Every call moves each id by one step of that machine.
use stalker_mp.Base.{
  ℕ, ◌+◌, ◌<◌, ◌^◌, ◌≡◌, refl, ap, ◌⊎◌, inl, inr, Option, none, some, List, arith, ◌==◌,
  if◌then◌else◌, u32, max, Bool-cases, Option-cases,
}
use stalker_mp.Keyed.Laws.{Ascending}
use stalker_mp.Keyed.Ascending.{insert-Ascending, erase-Ascending, is_at-Ascending}
use stalker_mp.World.Types.{
  EntityHandle, EntityRecord, EntityMetadata, EntityRegistrationState, record_key,
}
use stalker_mp.World.Registry.{
  EntityRegistry, register_entity, unregister_entity, restore_entity, last_generation, position_of,
}
use stalker_mp.World.Registry.{set_registration_state}
use stalker_mp.World.Registry.Laws.{
  live, register_entity_lem, unregister_entity_lem, restore_entity_lem, registered_record,
  find_by_handle-live,
}
use stalker_mp.World.Registry.States.{set_registration_state_lem, set_state-Ascending}

-- The calls that change entities and generations.
pub data Call : Type 0 where
  registers : ℕ → List ℕ → EntityMetadata → Call
  unregisters : EntityHandle → Call
  restores : ℕ → ℕ → List ℕ → EntityMetadata → Call
  sets_state : EntityHandle → EntityRegistrationState → Call

unfoldable pub step : EntityRegistry → Call → EntityRegistry
step r (registers id name metadata) = (register_entity r id name metadata).1
step r (unregisters h) = (unregister_entity r h).1
step r (restores id generation name metadata) = (restore_entity r id generation name metadata).1
step r (sets_state h target) = (set_registration_state r h target).1

abbrev pub generation_of : Option EntityRecord → Option ℕ
generation_of none = none
generation_of (some e) = some e.handle.generation

unfoldable pub live_generation : EntityRegistry → ℕ → Option ℕ
live_generation r id = generation_of (live r id)

-- The generation at which a call restores an id.
abbrev pub restored_at : Call → ℕ → Option ℕ
restored_at (restores id generation name metadata) j = if id == j then some generation else none
restored_at _ j = none

-- One step for one id: it stays, or its entity goes, or it gets the next generation, or it is restored.
abbrev pub Moves : Option ℕ → Option ℕ → ℕ → Option ℕ → ℕ → Type 0
Moves at o l o' l' =
    (o' ≡ o) × (l' ≡ l)
    ⊎ (o' ≡ none) × (l' ≡ l)
    ⊎ (o ≡ none) × (o' ≡ some (l + 1)) × (l' ≡ l + 1)
    ⊎ ((g : ℕ) × (at ≡ some g) × (0 < g) × (o ≡ none) × (o' ≡ some g) × (l' ≡ max l g))

-- The step that one id makes between two registries.
abbrev pub Step : Option ℕ → EntityRegistry → EntityRegistry → ℕ → Type 0
Step at r r' j =
    Moves at (live_generation r j) (last_generation r j) (live_generation r' j)
      (last_generation r' j)

same : (at : Option ℕ) (r r' : EntityRegistry) (j : ℕ) → r' ≡ r → Step at r r' j
same at r r' j e = inl (ap (λ s. live_generation s j) e, ap (λ s. last_generation s j) e)

u32_next : (n : ℕ) → n + 1 < 2 ^ 32 → u32 (n + 1) ≡ n + 1
u32_next n h = ground arith

register-Step :
    (r : EntityRegistry) (id j : ℕ) (name : List ℕ) (metadata : EntityMetadata)
    → Ascending record_key r.records
    → last_generation r id + 1 < 2 ^ 32
    → Step none r (register_entity r id name metadata).1 j
unfolding live_generation
register-Step r id j name metadata a small = elim (register_entity_lem r id name metadata a) [
  | inl (_, _, e, _) ↦ same none r _ j e
  | inr (inl (_, _, _, e, _)) ↦ same none r _ j e
  | inr (inr (inl (_, _, _, _, e, _))) ↦ same none r _ j e
  | inr (inr (inr (_, positive, free, _, lives, lasts, _))) ↦
      ground (arith, lives j, lasts j, u32_next (last_generation r id) small)
]

unregister-Step :
    (r : EntityRegistry) (h : EntityHandle) (j : ℕ)
    → Ascending record_key r.records
    → Step none r (unregister_entity r h).1 j
unfolding live_generation
unregister-Step r h j a =
    let (lasts, branch) = unregister_entity_lem r h a in
    elim branch [
      | inl (_, _, e, _) ↦ same none r _ j e
      | inr (inl (_, _, _, e, _)) ↦ same none r _ j e
      | inr (inr (inl (_, _, _, _, e, _))) ↦ same none r _ j e
      | inr (inr (inr (e, _, _, _, _, _, lives, _, _))) ↦ ground (arith, lives j, lasts j)
    ]

restore-Step :
    (r : EntityRegistry) (id generation j : ℕ) (name : List ℕ) (metadata : EntityMetadata)
    → Ascending record_key r.records
    → Step
        (if id == j then some generation else none)
        r
        (restore_entity r id generation name metadata).1
        j
unfolding live_generation
restore-Step r id generation j name metadata a =
    elim (restore_entity_lem r id generation name metadata a) [
      | inl (_, _, e, _) ↦ same _ r _ j e
      | inr (inl (_, _, e, _)) ↦ same _ r _ j e
      | inr (inr (inl (_, _, e, _))) ↦ same _ r _ j e
      | inr (inr (inr (_, positive, free, _, lives, lasts, _))) ↦ elim (Bool-cases (id == j)) [
        | inl q ↦ rw q (
            inr (
              inr (
                inr (
                  generation,
                  refl,
                  positive,
                  ground (arith, lives j),
                  ground (arith, lives j),
                  ground (arith, lasts j),
                ))))
        | inr q ↦ ground (arith, lives j, lasts j)
      ]
    ]

set_state-last :
    (r : EntityRegistry) (h : EntityHandle) (target : EntityRegistrationState) (j : ℕ)
    → last_generation (set_registration_state r h target).1 j ≡ last_generation r j
unfolding set_registration_state
set_state-last r h target j = ground arith

set_state-Step :
    (r : EntityRegistry) (h : EntityHandle) (target : EntityRegistrationState) (j : ℕ)
    → Ascending record_key r.records
    → Step none r (set_registration_state r h target).1 j
unfolding live_generation
set_state-Step r h target j a = elim (set_registration_state_lem r h target a) [
  | inl (_, _, e) ↦ same none r _ j e
  | inr (inl (_, _, e)) ↦ same none r _ j e
  | inr (inr (inl (_, _, e))) ↦ same none r _ j e
  | inr (inr (inr (x, found, inl (_, _, e)))) ↦ same none r _ j e
  | inr (inr (inr (x, found, inr (_, _, lives)))) ↦
      ground (arith, lives j, set_state-last r h target j, find_by_handle-live r h a)
]

-- Every call moves every id by one step.
pub step-Moves :
    (r : EntityRegistry) (c : Call) (j : ℕ)
    → Ascending record_key r.records
    → ((id : ℕ) → last_generation r id + 1 < 2 ^ 32)
    → Step (restored_at c j) r (step r c) j
unfolding step
step-Moves r (registers id name metadata) j a small =
    register-Step r id j name metadata a (small id)
step-Moves r (unregisters h) j a small = unregister-Step r h j a
step-Moves r (restores id generation name metadata) j a small =
    restore-Step r id generation j name metadata a
step-Moves r (sets_state h target) j a small = set_state-Step r h target j a

register-Ascending :
    (r : EntityRegistry) (id : ℕ) (name : List ℕ) (metadata : EntityMetadata)
    → Ascending record_key r.records
    → Ascending record_key (register_entity r id name metadata).1.records
unfolding register_entity
register-Ascending r id name metadata a = ground (
  arith,
  is_at-Ascending record_key id r.records a,
  insert-Ascending record_key r.records
      (registered_record id (u32 (last_generation r id + 1)) name metadata) a,
)

unregister-Ascending :
    (r : EntityRegistry) (h : EntityHandle)
    → Ascending record_key r.records
    → Ascending record_key (unregister_entity r h).1.records
unfolding unregister_entity
unregister-Ascending r h a = elim (Option-cases (position_of r h.id)) [
  | inl n ↦ ground arith
  | inr (i, p) ↦ ground (arith, erase-Ascending record_key i r.records a)
]

restore-Ascending :
    (r : EntityRegistry) (id generation : ℕ) (name : List ℕ) (metadata : EntityMetadata)
    → Ascending record_key r.records
    → Ascending record_key (restore_entity r id generation name metadata).1.records
unfolding restore_entity
restore-Ascending r id generation name metadata a = ground (
  arith,
  is_at-Ascending record_key id r.records a,
  insert-Ascending record_key r.records
      (record {
        handle = record { id = id; generation = generation };
        name = name;
        metadata = metadata;
      })
      a,
)

-- The records stay in ascending order.
pub step-Ascending :
    (r : EntityRegistry) (c : Call)
    → Ascending record_key r.records
    → Ascending record_key (step r c).records
unfolding step
step-Ascending r (registers id name metadata) a = register-Ascending r id name metadata a
step-Ascending r (unregisters h) a = unregister-Ascending r h a
step-Ascending r (restores id generation name metadata) a =
    restore-Ascending r id generation name metadata a
step-Ascending r (sets_state h target) a = set_state-Ascending r h target a
