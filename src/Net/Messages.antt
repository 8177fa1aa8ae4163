-- ===== src/Net/Messages.antt =====
-- net/MessageRegistry.cpp: the handlers of the wire messages by message id. A handler is a pointer
-- (0 the null pointer); what it does with the payload is outside the registry, so `dispatch` is given
-- the handlers' results.
pub mod Tests
pub mod Laws
use stalker_mp.Base.{
  ℕ, ◌+◌, ◌^◌, Bool, true, false, ◌&&◌, List, [], ◌∷◌, map, Option, none, some, length, get_elem?,
  insert_at, ◌==◌, if◌then◌else◌, is_some, u64, ErrorCode, Expected, ok, err,
}
use stalker_mp.Keyed.{
  Index, find_index, lower_bound, is_at, rebuild_accelerator, check_sorted, check_accelerator,
}
use stalker_mp.Net.Types.{is_control_id, is_data_id}

pub record Entry : Type 0 where
  pub id : ℕ
  pub handler : ℕ

abbrev pub entry_key : Entry → ℕ
entry_key e = e.id

pub record MessageRegistry : Type 0 where
  pub entries : List Entry
  pub index : Index
  pub unknown_count : ℕ

pub data DispatchResult : Type 0 where
  handled unknown failed : DispatchResult

unfoldable pub new : MessageRegistry
new = record { entries = []; index = []; unknown_count = 0 }

insert : MessageRegistry → ℕ → ℕ → Expected (Unit {0}) × MessageRegistry
insert r id handler =
    let pos = lower_bound entry_key r.entries id in
    if is_at entry_key r.entries pos id
    then (err ErrorCode.already_exists, r)
    else (let entries = insert_at r.entries pos (record { id = id; handler = handler }) in
        (ok tt, record r { entries = entries; index = rebuild_accelerator entry_key entries }))

unfoldable pub register : MessageRegistry → ℕ → ℕ → Expected (Unit {0}) × MessageRegistry
unfolding insert
register r id handler =
    if is_control_id id then insert r id handler else (err ErrorCode.invalid_argument, r)

unfoldable pub register_data : MessageRegistry → ℕ → ℕ → Expected (Unit {0}) × MessageRegistry
unfolding insert
register_data r id handler =
    if is_data_id id then insert r id handler else (err ErrorCode.invalid_argument, r)

-- `m_entries[it->second].handler`, called unless it is null. An index past the vector cannot occur
-- in a valid registry.
call_handler : (ℕ → Bool) → Option Entry → DispatchResult
call_handler handle none = DispatchResult.failed
call_handler handle (some e) =
    if e.handler == 0
    then DispatchResult.failed
    else if handle e.handler
    then DispatchResult.handled
    else DispatchResult.failed

-- `handle h` is whether the handler at `h` returns success for this payload and context.
unfoldable pub dispatch : (ℕ → Bool) → MessageRegistry → ℕ → DispatchResult × MessageRegistry
unfolding call_handler
dispatch handle r id = elim (find_index id r.index) [
  | none ↦ (DispatchResult.unknown, record r { unknown_count = u64 (r.unknown_count + 1) })
  | some i ↦ (call_handler handle (get_elem? r.entries i), r)
]

unfoldable pub contains : MessageRegistry → ℕ → Bool
contains r id = is_some (find_index id r.index)

unfoldable pub ids : MessageRegistry → List ℕ
ids r = map entry_key r.entries

unfoldable pub clear : MessageRegistry → MessageRegistry
clear r = record { entries = []; index = []; unknown_count = 0 }

pub record MessageRegistryReport : Type 0 where
  pub sorted_unique : Bool
  pub accelerator_consistent : Bool

abbrev pub is_healthy : MessageRegistryReport → Bool
is_healthy r = r.sorted_unique && r.accelerator_consistent

unfoldable pub validate_consistency : MessageRegistry → MessageRegistryReport
validate_consistency r = record {
  sorted_unique = check_sorted entry_key r.entries;
  accelerator_consistent = check_accelerator entry_key r.entries r.index;
}
