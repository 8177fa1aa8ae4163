-- ===== src/Net/Messages/Laws.antt =====
-- The registry as a finite map from message ids to handlers.
use stalker_mp.Base.{
  ℕ, ◌+◌, ◌≤◌, ◌<◌, ◌≡◌, refl, subst, ◌⊎◌, inl, inr, Bool, true, Option, none, some, arith, ◌==◌,
  if◌then◌else◌, is_some, u64, ErrorCode, ok, err, Option-cases,
}
use stalker_mp.Keyed.{find_index, lower_bound, is_at, rebuild_accelerator}
use stalker_mp.Keyed.Laws.{Ascending, lookup, find-rebuild-none, find-rebuild-some, index_of-lookup}
use stalker_mp.Keyed.Ascending.{is_at-Ascending, insert-Ascending, lookup-insert_Ascending}
use stalker_mp.Keyed.Checks.{check_sorted_iff, check_accelerator-rebuild}
use stalker_mp.Net.Messages.{
  MessageRegistry, DispatchResult, Entry, entry_key, new, insert, register, register_data, dispatch,
  clear, validate_consistency, is_healthy,
}

-- The vector ascends and the index is its index.
pub record IsValid (r : MessageRegistry) : Type 0 where
  pub ascending : Ascending entry_key r.entries
  pub indexed : r.index ≡ rebuild_accelerator entry_key r.entries

pub new-IsValid : IsValid new
unfolding new rebuild_accelerator
new-IsValid = record { ascending = tt; indexed = refl }

-- The abstract view: the entry of a message id.
unfoldable pub entry : MessageRegistry → ℕ → Option Entry
entry r id = lookup entry_key r.entries id

is_at-entry :
    (r : MessageRegistry) (id : ℕ)
    → IsValid r
    → is_at entry_key r.entries (lower_bound entry_key r.entries id) id ≡ is_some (entry r id)
unfolding entry
is_at-entry r id v = is_at-Ascending entry_key id r.entries v.ascending

insert-IsValid : (r : MessageRegistry) (id h : ℕ) → IsValid r → IsValid (insert r id h).1
unfolding insert entry
insert-IsValid r id h v = ground (
  arith,
  is_at-entry r id v,
  insert-Ascending entry_key r.entries (record { id = id; handler = h }) v.ascending,
)

-- One call of the registry.
pub data Call : Type 0 where
  registers registers_data : ℕ → ℕ → Call
  dispatches : (ℕ → Bool) → ℕ → Call
  clears : Call

unfoldable pub step : MessageRegistry → Call → MessageRegistry
step r (registers id h) = (register r id h).1
step r (registers_data id h) = (register_data r id h).1
step r (dispatches handle id) = (dispatch handle r id).1
step r clears = clear r

validate-healthy : (r : MessageRegistry) → IsValid r → is_healthy (validate_consistency r) ≡ true
unfolding validate_consistency
validate-healthy r v = rw v.indexed (
    ground (
      arith,
      (check_sorted_iff entry_key r.entries).1 v.ascending,
      check_accelerator-rebuild entry_key r.entries v.ascending,
    ))

step_kept : (r : MessageRegistry) (c : Call) → IsValid r → IsValid (step r c)
unfolding step register register_data dispatch clear rebuild_accelerator
step_kept r (registers id h) v = ground (arith, insert-IsValid r id h v)
step_kept r (registers_data id h) v = ground (arith, insert-IsValid r id h v)
step_kept r (dispatches handle id) v = ground arith
step_kept r clears v = record { ascending = tt; indexed = refl }

-- From a valid registry every call keeps the vector ascending and the index true to it, and such a
-- registry reports itself healthy.
pub step-IsValid :
    (r : MessageRegistry) (c : Call)
    → IsValid r
    → IsValid (step r c) × (is_healthy (validate_consistency (step r c)) ≡ true)
step-IsValid r c v = (step_kept r c v, validate-healthy (step r c) (step_kept r c v))

-- Registration with a valid registry on each branch: an id above the control range is refused, so is one
-- that is registered, and the registry stays as it was; any other id gets its handler, and the other
-- entries stay.
pub register_lem :
    (r : MessageRegistry) (id h : ℕ)
    → IsValid r
    → let (out, r') = register r id h in
      (0xff < id) × (out ≡ err ErrorCode.invalid_argument) × (r' ≡ r)
      ⊎ (id ≤ 0xff)
        × (is_some (entry r id) ≡ true)
        × (out ≡ err ErrorCode.already_exists)
        × (r' ≡ r)
      ⊎ (id ≤ 0xff)
        × (entry r id ≡ none)
        × (out ≡ ok tt)
        × (r'.unknown_count ≡ r.unknown_count)
        × ((j : ℕ)
            → entry r' j ≡ (if id == j then some (record { id = id; handler = h }) else entry r j))
unfolding register entry
register_lem r id h v = ground (
  arith,
  is_at-entry r id v,
  λ (j : ℕ).
      lookup-insert_Ascending entry_key j r.entries (record { id = id; handler = h }) v.ascending,
)

-- In a valid registry dispatch runs the handler registered for the id: unknown ids are counted, a null
-- handler and a handler's error give `failed`, and nothing else of the registry changes.
pub dispatch_lem :
    (handle : ℕ → Bool) (r : MessageRegistry) (id : ℕ)
    → IsValid r
    → dispatch handle r id ≡ elim (entry r id) [
      | none ↦ (DispatchResult.unknown, record r { unknown_count = u64 (r.unknown_count + 1) })
      | some e ↦ (
        if e.handler == 0
            then DispatchResult.failed
            else if handle e.handler
            then DispatchResult.handled
            else DispatchResult.failed,
        r,
      )
    ]
unfolding dispatch entry
dispatch_lem handle r id v = elim (Option-cases (find_index id r.index)) [
  | inl e ↦ ground (
    arith,
    find-rebuild-none entry_key id r.entries (subst (λ m. find_index id m ≡ none) v.indexed e),
  )
  | inr (i, e) ↦ ground (
    arith,
    find-rebuild-some entry_key id r.entries (subst (λ m. find_index id m ≡ some i) v.indexed e),
    index_of-lookup entry_key id r.entries,
  )
]
