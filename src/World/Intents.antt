-- ===== src/World/Intents.antt =====
-- world/TransitionTypes.h and world/TransitionIntentStore.h: what the host wants of each entity, by
-- ascending id, with a hash index.
pub mod Laws
pub mod Calls
pub mod Tests
use stalker_mp.Base.{
  ℕ, Bool, List, [], ◌∷◌, map, Option, none, some, set, get_elem?, insert_at, erase_at, is_some,
  ◌&&◌, if◌then◌else◌, ◌==◌,
}
use stalker_mp.Keyed.{
  Index, find_index, lower_bound, is_at, rebuild_accelerator, find_entry, check_sorted,
  check_accelerator,
}

pub data TransitionState : Type 0 where
  offline pending_online online pending_offline : TransitionState

pub record IntentEntry : Type 0 where
  pub id : ℕ
  pub state : TransitionState

abbrev pub entry_key : IntentEntry → ℕ
entry_key e = e.id

pub record IntentStore : Type 0 where
  pub entries : List IntentEntry
  pub index : Index

abbrev pub empty_store : IntentStore
empty_store = record { entries = []; index = [] }

insert_entry : IntentStore → ℕ → TransitionState → IntentStore
insert_entry s id state =
    let es =
      insert_at s.entries (lower_bound entry_key s.entries id)
        (record { id = id; state = state }) in
    record { entries = es; index = rebuild_accelerator entry_key es }

unfoldable pub set_intent : IntentStore → ℕ → TransitionState → IntentStore
unfolding insert_entry
set_intent s id state =
    let pos = lower_bound entry_key s.entries id in
    if is_at entry_key s.entries pos id
    then record s { entries = set s.entries pos (record { id = id; state = state }) }
    else insert_entry s id state

unfoldable pub erase_intent : IntentStore → ℕ → IntentStore
erase_intent s id = elim (find_index id s.index) [
  | none ↦ s
  | some i ↦
      let es = erase_at s.entries i in
      record { entries = es; index = rebuild_accelerator entry_key es }
]

unfoldable pub get_intent : IntentStore → ℕ → TransitionState
get_intent s id = elim (find_entry entry_key s.entries s.index id) [
  | none ↦ TransitionState.offline
  | some e ↦ e.state
]

abbrev pub contains_intent : IntentStore → ℕ → Bool
contains_intent s id = is_some (find_index id s.index)

abbrev pub tracked_entities : IntentStore → List ℕ
tracked_entities s = map entry_key s.entries

abbrev pub clear_intents : IntentStore → IntentStore
clear_intents s = record { entries = []; index = [] }

pub record StoreReport : Type 0 where
  pub sorted_unique : Bool
  pub accelerator_consistent : Bool

abbrev pub store_is_healthy : StoreReport → Bool
store_is_healthy r = r.sorted_unique && r.accelerator_consistent

unfoldable pub validate_store : IntentStore → StoreReport
validate_store s = record {
  sorted_unique = check_sorted entry_key s.entries;
  accelerator_consistent = check_accelerator entry_key s.entries s.index;
}
