-- ===== src/World/Transition/Report.antt =====
-- `Statistics` and `ValidateConsistency` of world/TransitionManager.cpp.
use stalker_mp.Base.{
  ℕ, ◌+◌, Bool, true, false, not, ◌&&◌, ◌||◌, List, [], ◌∷◌, length, ltb, ◌==◌, if◌then◌else◌,
}
use stalker_mp.World.Intents.{
  TransitionState, IntentEntry, IntentStore, get_intent, StoreReport, validate_store,
  store_is_healthy,
}
use stalker_mp.World.Transition.{
  TransitionKind, TransitionOutcome, TransitionCommand, TransitionRecord, TransitionResult,
  TransitionManager, command_lt, kind_number, is_applied,
}

pub record TransitionStatistics : Type 0 where
  pub online : ℕ
  pub pending_online : ℕ
  pub pending_offline : ℕ
  pub offline_tracked : ℕ
  pub applied_this_tick : ℕ
  pub skipped_this_tick : ℕ
  pub failed_this_tick : ℕ

abbrev no_statistics : TransitionStatistics
no_statistics = record {
  online = 0;
  pending_online = 0;
  pending_offline = 0;
  offline_tracked = 0;
  applied_this_tick = 0;
  skipped_this_tick = 0;
  failed_this_tick = 0;
}

abbrev count_state : TransitionState → TransitionStatistics → TransitionStatistics
count_state TransitionState.online t = record t { online = t.online + 1 }
count_state TransitionState.pending_online t = record t { pending_online = t.pending_online + 1 }
count_state TransitionState.pending_offline t = record t { pending_offline = t.pending_offline + 1 }
count_state TransitionState.offline t = record t { offline_tracked = t.offline_tracked + 1 }

abbrev count_outcome : TransitionOutcome → TransitionStatistics → TransitionStatistics
count_outcome TransitionOutcome.applied t = record t { applied_this_tick = t.applied_this_tick + 1 }
count_outcome TransitionOutcome.already_in_state t = record t {
  skipped_this_tick = t.skipped_this_tick + 1;
}
count_outcome TransitionOutcome.entity_missing t = record t {
  skipped_this_tick = t.skipped_this_tick + 1;
}
count_outcome TransitionOutcome.failed t = record t { failed_this_tick = t.failed_this_tick + 1 }

unfoldable pub count_states : List IntentEntry → TransitionStatistics → TransitionStatistics
count_states [] t = t
count_states (e ∷ es) t = count_states es (count_state e.state t)

unfoldable pub count_outcomes : List TransitionRecord → TransitionStatistics → TransitionStatistics
count_outcomes [] t = t
count_outcomes (r ∷ rs) t = count_outcomes rs (count_outcome r.outcome t)

unfoldable pub statistics : TransitionManager → TransitionStatistics
unfolding count_states count_outcomes
statistics m = count_outcomes m.last_records (count_states m.intent.entries no_statistics)

pub record ConsistencyReport : Type 0 where
  pub store : StoreReport
  pub states_valid : Bool
  pub staged_batch_ordered : Bool
  pub staged_intent_consistent : Bool
  pub records_match_batch : Bool
  pub result_consistent : Bool

abbrev pub is_healthy : ConsistencyReport → Bool
is_healthy r =
    store_is_healthy r.store
    && r.states_valid
    && r.staged_batch_ordered
    && r.staged_intent_consistent
    && r.records_match_batch
    && r.result_consistent

abbrev is_legal_state : TransitionState → Bool
is_legal_state TransitionState.offline = true
is_legal_state TransitionState.pending_online = true
is_legal_state TransitionState.online = true
is_legal_state TransitionState.pending_offline = true

unfoldable pub states_are_legal : List IntentEntry → Bool
states_are_legal [] = true
states_are_legal (e ∷ es) = if is_legal_state e.state then states_are_legal es else false

-- The scan over adjacent commands, after the one before.
unfoldable pub batch_after : TransitionCommand → List TransitionCommand → Bool
unfolding command_lt
batch_after p [] = true
batch_after p (c ∷ cs) =
    let rest = batch_after c cs in if not (command_lt p c) || p.id == c.id then false else rest

unfoldable pub batch_is_ordered : List TransitionCommand → Bool
unfolding batch_after
batch_is_ordered [] = true
batch_is_ordered (c ∷ cs) = batch_after c cs

abbrev pub matches_intent : TransitionKind → TransitionState → Bool
matches_intent TransitionKind.activate TransitionState.pending_online = true
matches_intent TransitionKind.deactivate TransitionState.pending_offline = true
matches_intent _ _ = false

unfoldable pub intents_match : IntentStore → List TransitionCommand → Bool
intents_match s [] = true
intents_match s (c ∷ cs) =
    let rest = intents_match s cs in
    if matches_intent c.kind (get_intent s c.id) then rest else false

-- The scan over records and commands of the same length.
unfoldable pub records_parallel : List TransitionRecord → List TransitionCommand → Bool
records_parallel (r ∷ rs) (c ∷ cs) =
    let rest = records_parallel rs cs in
    if r.id == c.id && kind_number r.kind == kind_number c.kind then rest else false
records_parallel _ _ = true

unfoldable pub records_match : List TransitionRecord → List TransitionCommand → Bool
unfolding records_parallel
records_match [] cs = true
records_match (r ∷ rs) cs =
    if length (r ∷ rs) == length cs then records_parallel (r ∷ rs) cs else false

abbrev pub ascending_after : ℕ → List ℕ → Bool
ascending_after p [] = true
ascending_after p (id ∷ ids) = ltb p id && ascending_after id ids

unfoldable pub ascending_unique : List ℕ → Bool
ascending_unique [] = true
ascending_unique (id ∷ ids) = ascending_after id ids

unfoldable pub backed_by_applied_record : List TransitionRecord → TransitionKind → ℕ → Bool
backed_by_applied_record [] kind id = false
backed_by_applied_record (r ∷ rs) kind id =
    let rest = backed_by_applied_record rs kind id in
    if r.id == id && kind_number r.kind == kind_number kind && is_applied r.outcome
    then true
    else rest

unfoldable pub all_backed : List TransitionRecord → TransitionKind → List ℕ → Bool
unfolding backed_by_applied_record
all_backed records kind [] = true
all_backed records kind (id ∷ ids) =
    let rest = all_backed records kind ids in
    if backed_by_applied_record records kind id then rest else false

unfoldable pub result_is_consistent : List TransitionRecord → TransitionResult → ℕ → Bool
unfolding ascending_unique all_backed
result_is_consistent records r last_tick =
    if not (ascending_unique r.brought_online)
      || not (ascending_unique r.brought_offline)
      || not (r.tick == last_tick)
    then false
    else if all_backed records TransitionKind.activate r.brought_online
    then all_backed records TransitionKind.deactivate r.brought_offline
    else false

unfoldable pub validate_consistency : TransitionManager → ConsistencyReport
unfolding states_are_legal batch_is_ordered intents_match records_match result_is_consistent
validate_consistency m = record {
  store = validate_store m.intent;
  states_valid = states_are_legal m.intent.entries;
  staged_batch_ordered = batch_is_ordered m.staged_batch;
  staged_intent_consistent = intents_match m.intent m.staged_batch;
  records_match_batch = records_match m.last_records m.staged_batch;
  result_consistent = result_is_consistent m.last_records m.last_result m.last_tick;
}
