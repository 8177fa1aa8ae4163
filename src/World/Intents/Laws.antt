-- ===== src/World/Intents/Laws.antt =====
-- world/TransitionIntentStore.h: each operation against the finite map that the store stands for.
use stalker_mp.Base.{
  ℕ, ◌≡◌, refl, sym, ap, ◌∙◌, inl, inr, true, [], Option, none, some, is_some, ◌==◌, if◌then◌else◌,
  Option-cases, arith,
}
use stalker_mp.Keyed.{rebuild_accelerator, lower_bound, find_index}
use stalker_mp.Keyed.Laws.{
  Ascending, lookup, lookup-key, find_entry-rebuild, find-rebuild-none, find-rebuild-some,
  find_index-rebuild, index_of-lookup,
}
use stalker_mp.Keyed.Ascending.{
  is_at-Ascending, insert-Ascending, lookup-insert_Ascending, erase-Ascending,
  lookup-erase_Ascending,
}
use stalker_mp.Keyed.Position.{lower_bound-index_of, get_elem?-lower_bound}
use stalker_mp.Keyed.Replace.{rebuild_from-set, Ascending-set, lookup-set}
use stalker_mp.Keyed.Checks.{check_sorted_iff, check_accelerator-rebuild}
use stalker_mp.World.Intents.{
  TransitionState, IntentEntry, entry_key, IntentStore, empty_store, set_intent, erase_intent,
  get_intent, contains_intent, validate_store, store_is_healthy,
}

pub record IsValid (s : IntentStore) : Type 0 where
  pub ascending : Ascending entry_key s.entries
  pub indexed : s.index ≡ rebuild_accelerator entry_key s.entries

-- The intent that the store records for an id.
abbrev pub intent_of : Option IntentEntry → Option TransitionState
intent_of none = none
intent_of (some e) = some e.state

unfoldable pub tracked : IntentStore → ℕ → Option TransitionState
tracked s id = intent_of (lookup entry_key s.entries id)

abbrev pub or_offline : Option TransitionState → TransitionState
or_offline none = TransitionState.offline
or_offline (some state) = state

pub empty_store-IsValid : IsValid empty_store
unfolding rebuild_accelerator
empty_store-IsValid = record { ascending = tt; indexed = refl }

pub get_intent-tracked :
    (s : IntentStore) (id : ℕ) → IsValid s → get_intent s id ≡ or_offline (tracked s id)
unfolding get_intent tracked
get_intent-tracked s id v = ground (arith, v.indexed, find_entry-rebuild entry_key id s.entries)

pub contains_intent-tracked :
    (s : IntentStore) (id : ℕ) → IsValid s → contains_intent s id ≡ is_some (tracked s id)
unfolding tracked
contains_intent-tracked s id v = ground (
  arith,
  v.indexed,
  find_index-rebuild entry_key id s.entries,
  index_of-lookup entry_key id s.entries,
)

abbrev pub SetLaw : IntentStore → ℕ → TransitionState → Type 0
SetLaw s id state =
    IsValid (set_intent s id state)
    × ((j : ℕ) → tracked (set_intent s id state) j ≡ (if id == j then some state else tracked s j))

set_present :
    (s : IntentStore) (id : ℕ) (state : TransitionState) {e : IntentEntry}
    → IsValid s
    → lookup entry_key s.entries id ≡ some e
    → SetLaw s id state
unfolding set_intent tracked rebuild_accelerator
set_present s id state {e} v h =
    let pos = lower_bound entry_key s.entries id in
    let new : IntentEntry = record { id = id; state = state } in
    let here = is_at-Ascending entry_key id s.entries v.ascending ∙ ap is_some h in
    let there = get_elem?-lower_bound entry_key id s.entries v.ascending (ap is_some h) ∙ h in
    let same = sym (lookup-key entry_key id s.entries h) in
    rw here (
      record {
        ascending = Ascending-set entry_key pos s.entries new v.ascending there same;
        indexed = v.indexed ∙ sym (rebuild_from-set entry_key 0 pos s.entries [] new there same);
      },
      λ j. ground (
        arith,
        lookup-set entry_key pos id j s.entries new
            (lower_bound-index_of entry_key id s.entries v.ascending (ap is_some h)) refl,
      ),
    )

set_absent :
    (s : IntentStore) (id : ℕ) (state : TransitionState)
    → IsValid s
    → lookup entry_key s.entries id ≡ none
    → SetLaw s id state
unfolding set_intent tracked
set_absent s id state v h =
    let new : IntentEntry = record { id = id; state = state } in
    rw (is_at-Ascending entry_key id s.entries v.ascending ∙ ap is_some h) (
      record { ascending = insert-Ascending entry_key s.entries new v.ascending h; indexed = refl },
      λ j. ground (arith, lookup-insert_Ascending entry_key j s.entries new v.ascending h),
    )

pub set_intent_lem :
    (s : IntentStore) (id : ℕ) (state : TransitionState) → IsValid s → SetLaw s id state
set_intent_lem s id state v = elim (Option-cases (lookup entry_key s.entries id)) [
  | inl h ↦ set_absent s id state v h
  | inr (e, h) ↦ set_present s id state v h
]

-- Reading an intent after setting one.
pub get-set_intent :
    (s : IntentStore) (id : ℕ) (state : TransitionState) (j : ℕ)
    → IsValid s
    → get_intent (set_intent s id state) j ≡ (if id == j then state else get_intent s j)
get-set_intent s id state j v =
    let (v', sets) = set_intent_lem s id state v in
    ground
      (arith, get_intent-tracked (set_intent s id state) j v', get_intent-tracked s j v, sets j)

abbrev pub EraseLaw : IntentStore → ℕ → Type 0
EraseLaw s id =
    IsValid (erase_intent s id)
    × ((j : ℕ) → tracked (erase_intent s id) j ≡ (if id == j then none else tracked s j))

erase_absent : (s : IntentStore) (id : ℕ) → IsValid s → find_index id s.index ≡ none → EraseLaw s id
unfolding erase_intent tracked
erase_absent s id v h =
    rw (erase_intent, h)
      (
        v,
        λ j. ground (
          arith,
          find-rebuild-none entry_key id s.entries (ap (find_index id) (sym v.indexed) ∙ h),
        ),
      )

erase_present :
    (s : IntentStore) (id : ℕ) {i : ℕ} → IsValid s → find_index id s.index ≡ some i → EraseLaw s id
unfolding erase_intent tracked
erase_present s id {i} v h =
    let (at, _) =
      find-rebuild-some entry_key id s.entries (ap (find_index id) (sym v.indexed) ∙ h) in
    rw (erase_intent, h)
      (
        record { ascending = erase-Ascending entry_key i s.entries v.ascending; indexed = refl },
        λ j. ground (arith, lookup-erase_Ascending entry_key id j s.entries v.ascending at),
      )

pub erase_intent_lem : (s : IntentStore) (id : ℕ) → IsValid s → EraseLaw s id
erase_intent_lem s id v = elim (Option-cases (find_index id s.index)) [
  | inl h ↦ erase_absent s id v h
  | inr (i, h) ↦ erase_present s id v h
]

pub validate_store-IsValid :
    (s : IntentStore) → IsValid s → store_is_healthy (validate_store s) ≡ true
unfolding validate_store
validate_store-IsValid s v =
    rw (v.indexed, check_accelerator-rebuild entry_key s.entries v.ascending)
      (ground (arith, (check_sorted_iff entry_key s.entries).1 v.ascending))
