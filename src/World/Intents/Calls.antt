-- ===== src/World/Intents/Calls.antt =====
-- world/TransitionIntentStore.h: histories of calls. The store is a canonical form of the map that they
-- build.
use stalker_mp.Base.{
  ℕ, ◌≡◌, refl, sym, ap, ap₂, ◌∙◌, true, List, [], ◌∷◌, Option, none, some, ◌==◌, if◌then◌else◌,
}
use stalker_mp.Keyed.{rebuild_accelerator}
use stalker_mp.Keyed.Laws.{lookup, lookup-key}
use stalker_mp.Keyed.Canonical.{lookup-injective}
use stalker_mp.World.Intents.{
  TransitionState, IntentEntry, entry_key, IntentStore, empty_store, set_intent, erase_intent,
  get_intent, clear_intents, validate_store, store_is_healthy,
}
use stalker_mp.World.Intents.Laws.{
  IsValid, tracked, intent_of, or_offline, empty_store-IsValid, set_intent_lem, erase_intent_lem,
  get_intent-tracked, validate_store-IsValid,
}

pub data Call : Type 0 where
  sets : ℕ → TransitionState → Call
  erases : ℕ → Call
  clears : Call

abbrev pub step : IntentStore → Call → IntentStore
step s (sets id state) = set_intent s id state
step s (erases id) = erase_intent s id
step s clears = clear_intents s

abbrev pub run : IntentStore → List Call → IntentStore
run s [] = s
run s (c ∷ cs) = run (step s c) cs

-- The specification: a finite map, with no order and no index.
abbrev pub Intents : Type 0
Intents = ℕ → Option TransitionState

abbrev pub step_map : Intents → Call → Intents
step_map m (sets id state) j = if id == j then some state else m j
step_map m (erases id) j = if id == j then none else m j
step_map m clears j = none

abbrev pub run_map : Intents → List Call → Intents
run_map m [] = m
run_map m (c ∷ cs) = run_map (step_map m c) cs

abbrev pub Refines : IntentStore → Intents → Type 0
Refines s m = IsValid s × ((j : ℕ) → tracked s j ≡ m j)

-- The entry that an intent stands in.
abbrev entry_of : ℕ → Option TransitionState → Option IntentEntry
entry_of id none = none
entry_of id (some state) = some (record { id = id; state = state })

entry_of-intent_of :
    (id : ℕ) (o : Option IntentEntry)
    → ((e : IntentEntry) → o ≡ some e → entry_key e ≡ id)
    → o ≡ entry_of id (intent_of o)
entry_of-intent_of id none h = refl
entry_of-intent_of id (some e) h = ap (λ n. some (record { id = n; state = e.state })) (h e refl)

lookup-tracked :
    (s : IntentStore) (id : ℕ) → lookup entry_key s.entries id ≡ entry_of id (tracked s id)
unfolding tracked
lookup-tracked s id =
    entry_of-intent_of id (lookup entry_key s.entries id)
      (λ e h. lookup-key entry_key id s.entries h)

pub tracked-injective :
    (s t : IntentStore) → IsValid s → IsValid t → ((id : ℕ) → tracked s id ≡ tracked t id) → s ≡ t
tracked-injective s t v w h =
    let same : s.entries ≡ t.entries =
      lookup-injective entry_key s.entries t.entries v.ascending w.ascending
        (λ id. lookup-tracked s id ∙ ap (entry_of id) (h id) ∙ sym (lookup-tracked t id)) in
    ap₂ (λ es m. record { entries = es; index = m }) same
      (v.indexed ∙ ap (rebuild_accelerator entry_key) same ∙ sym w.indexed)

step-Refines :
    (s : IntentStore) (m : Intents) (c : Call) → Refines s m → Refines (step s c) (step_map m c)
unfolding tracked lookup
step-Refines s m (sets id state) (v, r) =
    let (v', t) = set_intent_lem s id state v in (v', λ j. rw (t j, r j))
step-Refines s m (erases id) (v, r) =
    let (v', t) = erase_intent_lem s id v in (v', λ j. rw (t j, r j))
step-Refines s m clears (v, r) = (empty_store-IsValid, λ j. refl)

run-Refines :
    (s : IntentStore) (m : Intents) (cs : List Call)
    → Refines s m
    → Refines (run s cs) (run_map m cs)
run-Refines s m [] r = r
run-Refines s m (c ∷ cs) r = run-Refines (step s c) (step_map m c) cs (step-Refines s m c r)

new-Refines : (cs : List Call) → Refines (run empty_store cs) (run_map (λ j. none) cs)
unfolding tracked lookup
new-Refines cs = run-Refines empty_store (λ j. none) cs (empty_store-IsValid, none_tracked)
  where
    none_tracked : (j : ℕ) → tracked empty_store j ≡ none
    none_tracked j = refl

-- After any history of calls on a new store, reading an id gives what the finite map of the same history
-- holds, offline where it holds nothing, and the store's own scan reports health.
pub run-empty_store_refines :
    (cs : List Call) (id : ℕ)
    → (get_intent (run empty_store cs) id ≡ or_offline (run_map (λ j. none) cs id))
      × (store_is_healthy (validate_store (run empty_store cs)) ≡ true)
run-empty_store_refines cs id =
    let (v, r) = new-Refines cs in
    (
      get_intent-tracked (run empty_store cs) id v ∙ ap or_offline (r id),
      validate_store-IsValid (run empty_store cs) v,
    )

-- The store forgets the order of the calls: two histories that build the same finite map end in the very
-- same store, entries and index.
pub run-empty_store_canonical :
    (cs ds : List Call)
    → ((id : ℕ) → run_map (λ j. none) cs id ≡ run_map (λ j. none) ds id)
    → run empty_store cs ≡ run empty_store ds
run-empty_store_canonical cs ds h =
    let (v, r) = new-Refines cs in
    let (w, q) = new-Refines ds in
    tracked-injective (run empty_store cs) (run empty_store ds) v w (λ id. r id ∙ h id ∙ sym (q id))
