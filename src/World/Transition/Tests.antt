-- ===== src/World/Transition/Tests.antt =====
-- A manager over two ticks, and what the theorems say of it.
use stalker_mp.Base.{
  ℕ, ◌≤◌, ◌≡◌, refl, ◌⊎◌, Bool, true, List, [], ◌∷◌, Option, none, some, length, ltb, ◌==◌,
  if◌then◌else◌, arith, inl, inr,
}
use stalker_mp.Keyed.Laws.{Ascending, lookup}
use stalker_mp.World.Intents.{
  TransitionState, IntentEntry, IntentStore, get_intent, store_is_healthy, validate_store,
}
use stalker_mp.World.Intents.Laws.{IsValid, empty_store-IsValid}
use stalker_mp.World.Transition.{
  TransitionManager, TransitionCommand, Surroundings, Bubble, Gateway, command_key, state_of,
  update, new_manager, TransitionOutcome,
}
use stalker_mp.World.Transition.Staging.{next_intent, next_command}
use stalker_mp.World.Transition.Settling.{answer_of}
use stalker_mp.World.Transition.Report.{validate_consistency, is_healthy}
use stalker_mp.World.Transition.Laws.{Disjoint, reconciled, update_lem}
use stalker_mp.World.Transition.Health.{update-healthy}
use stalker_mp.World.Transition.Ticks.{
  with_bubble, update-order, update-online, run-settles, run, Ticks, settled_for,
}

abbrev apply_all : List TransitionCommand → List TransitionOutcome
apply_all [] = []
apply_all (c ∷ cs) = TransitionOutcome.applied ∷ apply_all cs

apply_all-Answers : (batch : List TransitionCommand) → length batch ≤ length (apply_all batch)
apply_all-Answers [] = omega arith
apply_all-Answers (c ∷ cs) = omega (arith, apply_all-Answers cs)

-- The engine knows of the entity 4 only.
abbrev gateway : Gateway
gateway = record { is_online = λ id. if id == 4 then some true else none; apply = apply_all }

abbrev first_bubble : Bubble
first_bubble = record { activations = 4 ∷ 9 ∷ []; deactivations = 2 ∷ [] }

abbrev same_bubble : Bubble
same_bubble = record { activations = 9 ∷ 4 ∷ 9 ∷ []; deactivations = 2 ∷ 2 ∷ [] }

first_bubble-Disjoint : Disjoint first_bubble
first_bubble-Disjoint j h = ground (arith, h)

abbrev registry : Option (ℕ → Bool)
registry = some (λ id. ltb id 9)

abbrev first_tick : Surroundings
first_tick = with_bubble registry (some gateway) first_bubble

-- The activation of entity 4 is pending.
abbrev first_manager : TransitionManager
first_manager = update first_tick 1 new_manager

first_manager-IsValid : IsValid first_manager.intent
first_manager-IsValid =
    (update_lem first_tick 1 new_manager refl empty_store-IsValid first_bubble-Disjoint).0

abbrev quiet_bubble : Bubble
quiet_bubble = record { activations = []; deactivations = 2 ∷ [] }

quiet_bubble-Disjoint : Disjoint quiet_bubble
quiet_bubble-Disjoint j h = absurd (ground (arith, h))

abbrev quiet_ticks : Ticks
quiet_ticks =
    (2, with_bubble none none quiet_bubble)
    ∷ (3, with_bubble registry (some gateway) quiet_bubble)
    ∷ []

update_lem_example :
    let w : Surroundings = first_tick in
    let b : Bubble = first_bubble in
    let tick : ℕ = 2 in
    let m : TransitionManager = first_manager in
    let m' = update w tick m in
    IsValid m'.intent
    × Ascending command_key m'.staged_batch
    × ((j : ℕ) → state_of m' j ≡ next_intent w.registry b (reconciled w m j) j)
    × ((j : ℕ)
        → lookup command_key m'.staged_batch j ≡ next_command w.registry b (reconciled w m j) j)
update_lem_example =
    update_lem first_tick 2 first_manager refl first_manager-IsValid first_bubble-Disjoint

update-healthy_example :
    let w : Surroundings = first_tick in
    let tick : ℕ = 2 in
    let m : TransitionManager = first_manager in
    is_healthy (validate_consistency (update w tick m)) ≡ true
update-healthy_example =
    update-healthy first_tick 2 first_manager refl first_manager-IsValid first_bubble-Disjoint
      apply_all-Answers

update-order_example :
    let registry : Option (ℕ → Bool) = registry in
    let gateway : Option Gateway = some gateway in
    let b : Bubble = first_bubble in
    let c : Bubble = same_bubble in
    let tick : ℕ = 2 in
    let m : TransitionManager = first_manager in
    let m' = update (with_bubble registry gateway b) tick m in
    let m'' = update (with_bubble registry gateway c) tick m in
    (m'.staged_batch ≡ m''.staged_batch)
    × (m'.last_records ≡ m''.last_records)
    × (m'.last_result ≡ m''.last_result)
    × ((j : ℕ) → state_of m' j ≡ state_of m'' j)
update-order_example =
    update-order registry (some gateway) first_bubble same_bubble 2 first_manager
      first_manager-IsValid first_bubble-Disjoint (λ j. ground arith, λ j. ground arith)

update-online_example :
    let w : Surroundings = first_tick in
    let tick : ℕ = 2 in
    let m : TransitionManager = first_manager in
    let j : ℕ = 4 in
    (state_of m j ≡ TransitionState.online)
    ⊎ (state_of m j ≡ TransitionState.pending_online) × (answer_of w.gateway j ≡ some true)
unfolding get_intent stalker_mp.Keyed.find_entry update stalker_mp.World.Intents.set_intent
    stalker_mp.Keyed.rebuild_accelerator stalker_mp.Keyed.lower_bound
update-online_example =
    update-online first_tick 2 first_manager 4 refl first_manager-IsValid first_bubble-Disjoint refl

run-settles_example :
    let a : Bool = true in
    let j : ℕ = 4 in
    let ts : Ticks = quiet_ticks in
    let m : TransitionManager = first_manager in state_of (run ts m) j ≡ settled_for a
unfolding get_intent stalker_mp.Keyed.find_entry update stalker_mp.World.Intents.set_intent
    stalker_mp.Keyed.rebuild_accelerator stalker_mp.Keyed.lower_bound
run-settles_example =
    run-settles true 4 quiet_ticks first_manager first_manager-IsValid
      (
        (quiet_bubble, refl, quiet_bubble-Disjoint, refl, refl),
        ((quiet_bubble, refl, quiet_bubble-Disjoint, refl, refl), tt),
      )
      refl (inr (inl refl))
