-- ===== src/World/Transition/Staging.antt =====
-- The two ingestion loops of `TransitionManager::Update`: what they stage and which intents they leave.
use stalker_mp.Base.{
  ℕ, ◌≡◌, refl, ap, inl, inr, Bool, true, false, List, [], ◌∷◌, Option, none, some, is_some, ◌==◌,
  if◌then◌else◌, Option-cases, arith, has,
}
use stalker_mp.Keyed.Laws.{lookup}
use stalker_mp.Keyed.Sorting.{Distinct, lookup-append_end, Distinct-append}
use stalker_mp.World.Intents.{TransitionState, IntentStore, get_intent}
use stalker_mp.World.Intents.Laws.{IsValid, set_intent_lem, get-set_intent}
use stalker_mp.World.Transition.{
  TransitionCommand, command_key, Ingestion, Bubble, activations_loop, deactivations_loop,
  is_registered, stage_one, stage, stage_all,
}

module _ (registry : Option (ℕ → Bool)) (loop : Ingestion) where
  -- Whether the loop stages a command for an id that it meets.
  unfoldable pub wanted : TransitionState → ℕ → Bool
  wanted state id = if is_registered registry id then loop.needs state else false

  -- What the loop leaves of one id, and the command that it has for it.
  unfoldable pub staged_intent : TransitionState → ℕ → TransitionState
  staged_intent state id = if wanted state id then loop.pending else state

  unfoldable pub staged_command : TransitionState → ℕ → Option TransitionCommand
  staged_command state id =
      if wanted state id then some (record { id = id; kind = loop.kind }) else none

  stage_one_lem :
      (batch : List TransitionCommand) (s : IntentStore) (id : ℕ)
      → IsValid s
      → let (batch', s') = stage_one registry loop (batch, s) id in
        IsValid s'
        × ((j : ℕ)
            → get_intent s' j
              ≡ (if id == j then staged_intent (get_intent s j) j else get_intent s j))
        × ((j : ℕ)
            → lookup command_key batch' j ≡ elim (lookup command_key batch j) [
              | none ↦ if id == j then staged_command (get_intent s j) j else none
              | some c ↦ some c
            ])
  unfolding stage_one wanted staged_intent staged_command
  stage_one_lem batch s id v =
      let (v', _) = set_intent_lem s id loop.pending v in
      (
        ground (arith, v'),
        λ j. ground (arith, get-set_intent s id loop.pending j v),
        λ j.
            ground
              (arith, lookup-append_end command_key batch (record { id = id; kind = loop.kind }) j),
      )

  stage_lem :
      (ids : List ℕ) (batch : List TransitionCommand) (s : IntentStore)
      → loop.needs loop.pending ≡ false
      → IsValid s
      → let (batch', s') = stage registry loop ids (batch, s) in
        IsValid s'
        × ((j : ℕ)
            → get_intent s' j
              ≡ (if has ids j then staged_intent (get_intent s j) j else get_intent s j))
        × ((j : ℕ)
            → lookup command_key batch' j ≡ elim (lookup command_key batch j) [
              | none ↦ if has ids j then staged_command (get_intent s j) j else none
              | some c ↦ some c
            ])
  unfolding stage wanted staged_intent staged_command
  stage_lem [] batch s np v = (v, λ j. refl, λ j. ground arith)
  stage_lem (id ∷ ids) batch s np v =
      let (batch', s') = stage_one registry loop (batch, s) id in
      let (v', gets, finds) = stage_one_lem batch s id v in
      let (v'', gets', finds') = stage_lem ids batch' s' np v' in
      (v'', λ j. ground (arith, gets j, gets' j), λ j. ground (arith, gets j, finds j, finds' j))

  stage_one-Distinct :
      (batch : List TransitionCommand) (s : IntentStore) (id : ℕ)
      → (is_some (lookup command_key batch id) ≡ true → loop.needs (get_intent s id) ≡ false)
      → Distinct command_key batch
      → Distinct command_key (stage_one registry loop (batch, s) id).0
  unfolding stage_one
  stage_one-Distinct batch s id apart d = elim (Option-cases (lookup command_key batch id)) [
    | inl h ↦
        ground (arith, Distinct-append command_key batch (record { id = id; kind = loop.kind }) d h)
    | inr (c, h) ↦ ground (arith, apart (ap is_some h))
  ]

  -- No id gets two commands, if the ids with a command that come again do not need one.
  stage-Distinct :
      (ids : List ℕ) (batch : List TransitionCommand) (s : IntentStore)
      → loop.needs loop.pending ≡ false
      → IsValid s
      → ((j : ℕ)
          → has ids j ≡ true
          → is_some (lookup command_key batch j) ≡ true
          → loop.needs (get_intent s j) ≡ false)
      → Distinct command_key batch
      → Distinct command_key (stage registry loop ids (batch, s)).0
  unfolding stage wanted staged_intent staged_command
  stage-Distinct [] batch s np v apart d = d
  stage-Distinct (id ∷ ids) batch s np v apart d =
      let (batch', s') = stage_one registry loop (batch, s) id in
      let (v', gets, finds) = stage_one_lem batch s id v in
      stage-Distinct ids batch' s' np v' (λ j h k. ground (arith, gets j, finds j, apart j))
        (stage_one-Distinct batch s id (apart id (ground arith)) d)

module _ (registry : Option (ℕ → Bool)) (b : Bubble) where
  -- The intent of an id after the tick's ingestion, and its command.
  unfoldable pub next_intent : TransitionState → ℕ → TransitionState
  next_intent state j =
      if has b.activations j
      then staged_intent registry activations_loop state j
      else if has b.deactivations j
      then staged_intent registry deactivations_loop state j
      else state

  unfoldable pub next_command : TransitionState → ℕ → Option TransitionCommand
  next_command state j =
      if has b.activations j
      then staged_command registry activations_loop state j
      else if has b.deactivations j
      then staged_command registry deactivations_loop state j
      else none

  pub stage_all_lem :
      (s : IntentStore)
      → IsValid s
      → ((j : ℕ) → has b.activations j ≡ true → has b.deactivations j ≡ false)
      → let (batch, s') = stage_all registry b s in
        IsValid s'
        × Distinct command_key batch
        × ((j : ℕ) → get_intent s' j ≡ next_intent (get_intent s j) j)
        × ((j : ℕ) → lookup command_key batch j ≡ next_command (get_intent s j) j)
  unfolding stage_all lookup next_intent next_command staged_intent staged_command wanted
  stage_all_lem s v disjoint =
      let (batch, s') = stage registry activations_loop b.activations ([], s) in
      let (v', gets, finds) = stage_lem registry activations_loop b.activations [] s refl v in
      let (v'', gets', finds') =
        stage_lem registry deactivations_loop b.deactivations batch s' refl v' in
      (
        v'',
        stage-Distinct registry deactivations_loop b.deactivations batch s' refl v'
            (λ j h k. absurd (ground (arith, finds j, disjoint j)))
            (stage-Distinct registry activations_loop b.activations [] s refl v
              (λ j h k. absurd (ground arith)) tt),
        λ j. ground (arith, gets j, gets' j, disjoint j),
        λ j. ground (arith, gets j, finds j, finds' j, disjoint j),
      )
