-- ===== src/World/Transition/Settling.antt =====
-- `TransitionManager::Reconcile`: what it does to each intent.
use stalker_mp.Base.{
  ℕ, ◌≡◌, refl, inl, inr, Bool, true, false, List, [], ◌∷◌, Option, none, some, ◌==◌, if◌then◌else◌,
  Option-cases, arith, has,
}
use stalker_mp.Keyed.Laws.{lookup}
use stalker_mp.World.Intents.{TransitionState, IntentEntry, entry_key, IntentStore, get_intent}
use stalker_mp.World.Intents.Laws.{
  IsValid, set_intent_lem, get-set_intent, get_intent-tracked, tracked, intent_of, or_offline,
}
use stalker_mp.World.Transition.{
  Gateway, is_pending, pending_ids, confirmed, reconcile_one, reconcile_all, reconcile,
}

-- An intent after one answer of the engine.
abbrev pub settled : Option Bool → TransitionState → TransitionState
settled answer state = elim (confirmed answer state) [ none ↦ state | some next ↦ next ]

-- What the gateway knows of an id; nothing without a gateway.
abbrev pub answer_of : Option Gateway → ℕ → Option Bool
answer_of none id = none
answer_of (some g) id = g.is_online id

settled_twice :
    (a : Option Bool) (state : TransitionState) → settled a (settled a state) ≡ settled a state
settled_twice none state = refl
settled_twice (some true) TransitionState.offline = refl
settled_twice (some true) TransitionState.pending_online = refl
settled_twice (some true) TransitionState.online = refl
settled_twice (some true) TransitionState.pending_offline = refl
settled_twice (some false) TransitionState.offline = refl
settled_twice (some false) TransitionState.pending_online = refl
settled_twice (some false) TransitionState.online = refl
settled_twice (some false) TransitionState.pending_offline = refl

settled_idle :
    (a : Option Bool) (state : TransitionState) → is_pending state ≡ false → settled a state ≡ state
settled_idle none state h = refl
settled_idle (some true) TransitionState.offline h = refl
settled_idle (some true) TransitionState.pending_online h = absurd (ground arith)
settled_idle (some true) TransitionState.online h = refl
settled_idle (some true) TransitionState.pending_offline h = refl
settled_idle (some false) TransitionState.offline h = refl
settled_idle (some false) TransitionState.pending_online h = refl
settled_idle (some false) TransitionState.online h = refl
settled_idle (some false) TransitionState.pending_offline h = absurd (ground arith)

reconcile_one_lem :
    (is_online : ℕ → Option Bool) (s : IntentStore) (id : ℕ)
    → IsValid s
    → IsValid (reconcile_one is_online s id)
      × ((j : ℕ)
          → get_intent (reconcile_one is_online s id) j
            ≡ (if id == j then settled (is_online j) (get_intent s j) else get_intent s j))
unfolding reconcile_one
reconcile_one_lem is_online s id v =
    elim (Option-cases (confirmed (is_online id) (get_intent s id))) [
      | inl h ↦ (ground arith, λ j. ground arith)
      | inr (state, h) ↦
          let (v', _) = set_intent_lem s id state v in
          (ground (arith, v'), λ j. ground (arith, get-set_intent s id state j v))
    ]

reconcile_all_lem :
    (is_online : ℕ → Option Bool) (ids : List ℕ) (s : IntentStore)
    → IsValid s
    → IsValid (reconcile_all is_online ids s)
      × ((j : ℕ)
          → get_intent (reconcile_all is_online ids s) j
            ≡ (if has ids j then settled (is_online j) (get_intent s j) else get_intent s j))
unfolding reconcile_all
reconcile_all_lem is_online [] s v = (v, λ j. refl)
reconcile_all_lem is_online (id ∷ ids) s v =
    let (v', gets) = reconcile_one_lem is_online s id v in
    let (v'', gets') = reconcile_all_lem is_online ids (reconcile_one is_online s id) v' in
    (v'', λ j. ground (arith, gets j, gets' j, settled_twice (is_online j) (get_intent s j)))

has-pending_ids :
    (es : List IntentEntry) (j : ℕ)
    → is_pending (or_offline (intent_of (lookup entry_key es j))) ≡ true
    → has (pending_ids es) j ≡ true
unfolding pending_ids lookup
has-pending_ids [] j h = h
has-pending_ids (e ∷ es) j h = ground (arith, has-pending_ids es j)

-- Reconciliation of a valid store settles each intent by what the engine answers for its id, and touches
-- nothing else.
pub reconcile_lem :
    (g : Option Gateway) (s : IntentStore)
    → IsValid s
    → IsValid (reconcile g s)
      × ((j : ℕ) → get_intent (reconcile g s) j ≡ settled (answer_of g j) (get_intent s j))
unfolding reconcile tracked
reconcile_lem none s v = (v, λ j. refl)
reconcile_lem (some g) s v =
    let (v', gets) = reconcile_all_lem g.is_online (pending_ids s.entries) s v in
    (
      v',
      λ j. ground (
        arith,
        gets j,
        get_intent-tracked s j v,
        has-pending_ids s.entries j,
        settled_idle (g.is_online j) (get_intent s j),
      ),
    )
