-- ===== src/World/Transition/Health.antt =====
-- The consistency report of world/TransitionManager.cpp after a tick.
use stalker_mp.Base.{ℕ, ◌≡◌, refl, sym, ◌∙◌, Bool, true, List, [], ◌∷◌, Option, some, All, arith}
use stalker_mp.Keyed.Laws.{Above, Ascending, lookup, lookup-key}
use stalker_mp.Keyed.Position.{All-lookup}
use stalker_mp.World.Intents.{TransitionState, IntentEntry, IntentStore, get_intent}
use stalker_mp.World.Intents.Laws.{IsValid, validate_store-IsValid}
use stalker_mp.World.Transition.{
  TransitionManager, TransitionCommand, Surroundings, Bubble, command_key, command_lt, update,
  apply_batch,
}
use stalker_mp.World.Transition.Report.{
  validate_consistency, is_healthy, states_are_legal, batch_is_ordered, batch_after, intents_match,
  matches_intent, records_match, result_is_consistent,
}
use stalker_mp.World.Transition.Staging.{
  next_intent, next_command, staged_intent, staged_command, wanted,
}
use stalker_mp.World.Transition.Outcomes.{AllAnswer, apply_batch-match, apply_batch-consistent}
use stalker_mp.World.Transition.Laws.{Disjoint, reconciled, update_lem}

legal_states : (es : List IntentEntry) → states_are_legal es ≡ true
unfolding states_are_legal
legal_states [] = refl
legal_states (e ∷ es) = ground (arith, legal_states es)

batch_after-Above :
    (c : TransitionCommand) (cs : List TransitionCommand)
    → Above command_key c.id cs
    → batch_after c cs ≡ true
unfolding batch_after command_lt
batch_after-Above c [] a = refl
batch_after-Above c (d ∷ ds) a = ground (arith, batch_after-Above d ds a.1)

batch_is_ordered-Ascending :
    (cs : List TransitionCommand) → Ascending command_key cs → batch_is_ordered cs ≡ true
unfolding batch_is_ordered
batch_is_ordered-Ascending [] a = refl
batch_is_ordered-Ascending (c ∷ cs) a = batch_after-Above c cs a

intents_match-All :
    (s : IntentStore) (cs : List TransitionCommand)
    → All (λ c. matches_intent c.kind (get_intent s c.id) ≡ true) cs
    → intents_match s cs ≡ true
unfolding intents_match
intents_match-All s [] a = refl
intents_match-All s (c ∷ cs) a = ground (arith, intents_match-All s cs a.1, a.0)

-- A command and the intent that goes with it.
next_command-matches :
    (registry : Option (ℕ → Bool)) (b : Bubble) (state : TransitionState) (j : ℕ)
    {c : TransitionCommand}
    → next_command registry b state j ≡ some c
    → matches_intent c.kind (next_intent registry b state j) ≡ true
unfolding next_command next_intent staged_command staged_intent wanted
next_command-matches registry b state j {c} h = ground (arith, h)

-- What a tick with a bubble records, in terms of its batch.
pub update_outcomes :
    (w : Surroundings) {b : Bubble} (tick : ℕ) (m : TransitionManager)
    → w.bubble ≡ some b
    → let m' = update w tick m in
      let (records, on, off) = apply_batch w.gateway m'.staged_batch in
      (m'.last_records ≡ records)
      × (m'.last_result ≡ record { brought_online = on; brought_offline = off; tick = tick })
      × (m'.last_tick ≡ tick)
unfolding update
update_outcomes w tick m h = rw h (refl, refl, refl)

update-intents_match :
    (w : Surroundings) {b : Bubble} (tick : ℕ) (m : TransitionManager)
    → w.bubble ≡ some b
    → IsValid m.intent
    → Disjoint b
    → intents_match (update w tick m).intent (update w tick m).staged_batch ≡ true
update-intents_match w {b} tick m h v disjoint =
    let m' = update w tick m in
    let (_, ascends, gets, finds) = update_lem w tick m h v disjoint in
    let matched : (j : ℕ) (c : TransitionCommand)
        → lookup command_key m'.staged_batch j ≡ some c
        → matches_intent c.kind (get_intent m'.intent c.id) ≡ true =
      λ j c e.
        rw (lookup-key command_key j m'.staged_batch e, gets j)
          (next_command-matches w.registry b (reconciled w m j) j (sym (finds j) ∙ e)) in
    intents_match-All m'.intent m'.staged_batch (
      All-lookup command_key (λ c. matches_intent c.kind (get_intent m'.intent c.id) ≡ true)
        m'.staged_batch ascends matched)

-- After a tick with a bubble whose two lists are disjoint and a gateway, if there is one, that gives every
-- command of a batch an outcome, on a manager with a valid store, the manager's own consistency report is
-- healthy in all six checks.
pub update-healthy :
    (w : Surroundings) {b : Bubble} (tick : ℕ) (m : TransitionManager)
    → w.bubble ≡ some b
    → IsValid m.intent
    → Disjoint b
    → AllAnswer w.gateway
    → is_healthy (validate_consistency (update w tick m)) ≡ true
unfolding validate_consistency
update-healthy w {b} tick m h v disjoint answers =
    let m' = update w tick m in
    let (v', ascends, _, _) = update_lem w tick m h v disjoint in
    let (records, result, last) = update_outcomes w tick m h in
    let matched : records_match m'.last_records m'.staged_batch ≡ true =
      rw records (apply_batch-match w.gateway m'.staged_batch answers) in
    let consistent : result_is_consistent m'.last_records m'.last_result m'.last_tick ≡ true =
      rw (records, result, last) (apply_batch-consistent w.gateway m'.staged_batch tick ascends) in
    rw (
      validate_store-IsValid m'.intent v',
      legal_states m'.intent.entries,
      batch_is_ordered-Ascending m'.staged_batch ascends,
      update-intents_match w tick m h v disjoint,
      matched,
      consistent,
    )
