-- ===== src/World/Transition.antt =====
-- world/TransitionTypes.h and world/TransitionManager.cpp: one tick reconciles the pending intents with
-- the engine, stages a batch of commands from the bubble's lists, applies it and records the outcomes.
-- The bubble, the entity registry and the gateway are pointers that may be null; the gateway stands for
-- the engine as it is in that tick. `Update` reads the engine before it applies the batch, so what
-- `IsOnline` answers is a function of the id.
pub mod Report
pub mod Staging
pub mod Settling
pub mod Laws
pub mod Outcomes
pub mod Health
pub mod Ticks
pub mod Tests
use stalker_mp.Base.{
  ℕ, Bool, true, false, not, List, [], ◌∷◌, ◌++◌, Option, none, some, ltb, ◌==◌, if◌then◌else◌,
}
use stalker_mp.Keyed.Sorting.{sort}
use stalker_mp.World.Intents.{
  TransitionState, IntentEntry, IntentStore, empty_store, set_intent, get_intent,
}

pub data TransitionKind : Type 0 where
  activate deactivate : TransitionKind

pub data TransitionOutcome : Type 0 where
  applied already_in_state entity_missing failed : TransitionOutcome

pub record TransitionCommand : Type 0 where
  pub id : ℕ
  pub kind : TransitionKind

abbrev pub command_key : TransitionCommand → ℕ
command_key c = c.id

abbrev pub kind_number : TransitionKind → ℕ
kind_number TransitionKind.activate = 0
kind_number TransitionKind.deactivate = 1

unfoldable pub command_lt : TransitionCommand → TransitionCommand → Bool
command_lt a b =
    if a.id == b.id then ltb (kind_number a.kind) (kind_number b.kind) else ltb a.id b.id

pub record TransitionRecord : Type 0 where
  pub id : ℕ
  pub kind : TransitionKind
  pub outcome : TransitionOutcome

pub record TransitionResult : Type 0 where
  pub brought_online : List ℕ
  pub brought_offline : List ℕ
  pub tick : ℕ

pub record Gateway : Type 0 where
  pub is_online : ℕ → Option Bool
  pub apply : List TransitionCommand → List TransitionOutcome

pub record Bubble : Type 0 where
  pub activations : List ℕ
  pub deactivations : List ℕ

-- What `Update` reads of the rest of the host in a tick; `none` is a null pointer.
pub record Surroundings : Type 0 where
  pub bubble : Option Bubble
  pub registry : Option (ℕ → Bool)
  pub gateway : Option Gateway

pub record TransitionManager : Type 0 where
  pub intent : IntentStore
  pub staged_batch : List TransitionCommand
  pub last_records : List TransitionRecord
  pub last_tick : ℕ
  pub last_result : TransitionResult

abbrev pub empty_result : ℕ → TransitionResult
empty_result tick = record { brought_online = []; brought_offline = []; tick = tick }

abbrev pub new_manager : TransitionManager
new_manager = record {
  intent = empty_store;
  staged_batch = [];
  last_records = [];
  last_tick = 0;
  last_result = empty_result 0;
}

abbrev pub is_pending : TransitionState → Bool
is_pending TransitionState.pending_online = true
is_pending TransitionState.pending_offline = true
is_pending _ = false

-- The snapshot of the ids to reconcile.
unfoldable pub pending_ids : List IntentEntry → List ℕ
pending_ids [] = []
pending_ids (e ∷ es) = let rest = pending_ids es in if is_pending e.state then e.id ∷ rest else rest

-- What one answer of the engine does to an intent; `none` where it changes nothing.
abbrev pub confirmed : Option Bool → TransitionState → Option TransitionState
confirmed (some true) TransitionState.pending_online = some TransitionState.online
confirmed (some false) TransitionState.pending_offline = some TransitionState.offline
confirmed _ _ = none

unfoldable pub reconcile_one : (ℕ → Option Bool) → IntentStore → ℕ → IntentStore
reconcile_one is_online s id = elim (confirmed (is_online id) (get_intent s id)) [
  | none ↦ s
  | some state ↦ set_intent s id state
]

unfoldable pub reconcile_all : (ℕ → Option Bool) → List ℕ → IntentStore → IntentStore
unfolding reconcile_one
reconcile_all is_online [] s = s
reconcile_all is_online (id ∷ ids) s = reconcile_all is_online ids (reconcile_one is_online s id)

unfoldable pub reconcile : Option Gateway → IntentStore → IntentStore
unfolding reconcile_all pending_ids
reconcile none s = s
reconcile (some g) s = reconcile_all g.is_online (pending_ids s.entries) s

abbrev pub needs_activate : TransitionState → Bool
needs_activate TransitionState.online = false
needs_activate TransitionState.pending_online = false
needs_activate _ = true

abbrev pub needs_deactivate : TransitionState → Bool
needs_deactivate TransitionState.offline = false
needs_deactivate TransitionState.pending_offline = false
needs_deactivate _ = true

-- `m_registry == nullptr || m_registry->Contains(id)`.
abbrev pub is_registered : Option (ℕ → Bool) → ℕ → Bool
is_registered none id = true
is_registered (some contains) id = contains id

-- The body that the two ingestion loops share: which intents need the command, the command, and the
-- intent that it leaves.
pub record Ingestion : Type 0 where
  pub needs : TransitionState → Bool
  pub kind : TransitionKind
  pub pending : TransitionState

abbrev pub activations_loop : Ingestion
activations_loop = record {
  needs = needs_activate;
  kind = TransitionKind.activate;
  pending = TransitionState.pending_online;
}

abbrev pub deactivations_loop : Ingestion
deactivations_loop = record {
  needs = needs_deactivate;
  kind = TransitionKind.deactivate;
  pending = TransitionState.pending_offline;
}

abbrev pub Staging : Type 0
Staging = List TransitionCommand × IntentStore

unfoldable pub stage_one : Option (ℕ → Bool) → Ingestion → Staging → ℕ → Staging
stage_one registry loop (batch, s) id =
    if is_registered registry id
    then if loop.needs (get_intent s id)
      then (batch ++ record { id = id; kind = loop.kind } ∷ [], set_intent s id loop.pending)
      else (batch, s)
    else (batch, s)

unfoldable pub stage : Option (ℕ → Bool) → Ingestion → List ℕ → Staging → Staging
unfolding stage_one
stage registry loop [] st = st
stage registry loop (id ∷ ids) st = stage registry loop ids (stage_one registry loop st id)

unfoldable pub stage_all : Option (ℕ → Bool) → Bubble → IntentStore → Staging
unfolding stage
stage_all registry b s =
    stage registry deactivations_loop b.deactivations
      (stage registry activations_loop b.activations ([], s))

-- The loop over the outcomes: the records, and the ids that were switched on and off.
abbrev pub Recorded : Type 0
Recorded = List TransitionRecord × List ℕ × List ℕ

abbrev pub is_applied : TransitionOutcome → Bool
is_applied TransitionOutcome.applied = true
is_applied _ = false

abbrev pub is_activate : TransitionKind → Bool
is_activate TransitionKind.activate = true
is_activate TransitionKind.deactivate = false

abbrev pub record_outcome : TransitionCommand → TransitionOutcome → Recorded → Recorded
record_outcome c o (records, on, off) = (
  record { id = c.id; kind = c.kind; outcome = o } ∷ records,
  if is_applied o then if is_activate c.kind then c.id ∷ on else on else on,
  if is_applied o then if is_activate c.kind then off else c.id ∷ off else off,
)

unfoldable pub record_outcomes : List TransitionCommand → List TransitionOutcome → Recorded
record_outcomes [] os = ([], [], [])
record_outcomes (c ∷ cs) [] = ([], [], [])
record_outcomes (c ∷ cs) (o ∷ os) = record_outcome c o (record_outcomes cs os)

abbrev pub apply_batch : Option Gateway → List TransitionCommand → Recorded
apply_batch none batch = ([], [], [])
apply_batch (some g) batch = record_outcomes batch (g.apply batch)

unfoldable pub update : Surroundings → ℕ → TransitionManager → TransitionManager
unfolding reconcile stage_all record_outcomes sort command_lt
update w tick m =
    let intent = reconcile w.gateway m.intent in
    elim w.bubble [
      | none ↦ record m { intent = intent; staged_batch = []; last_tick = tick }
      | some b ↦
          let (staged, s) = stage_all w.registry b intent in
          let batch = sort command_lt staged in
          let (records, on, off) = apply_batch w.gateway batch in
          record {
            intent = s;
            staged_batch = batch;
            last_records = records;
            last_tick = tick;
            last_result = record { brought_online = on; brought_offline = off; tick = tick };
          }
    ]

abbrev pub state_of : TransitionManager → ℕ → TransitionState
state_of m id = get_intent m.intent id
