-- ===== src/World/Transition/Laws.antt =====
-- `TransitionManager::Update` with a bubble: the intents and the batch after a tick, id by id, and what of
-- the bubble's lists they depend on.
use stalker_mp.Base.{ℕ, ◌≡◌, ap, ◌∙◌, true, false, some, arith, has}
use stalker_mp.Keyed.Laws.{Ascending, lookup}
use stalker_mp.Keyed.Sorting.{ByKey, lookup-sort, sort-Ascending}
use stalker_mp.World.Intents.{TransitionState}
use stalker_mp.World.Intents.Laws.{IsValid}
use stalker_mp.World.Transition.{
  TransitionManager, Surroundings, Bubble, command_key, command_lt, state_of, reconcile, stage_all,
  update,
}
use stalker_mp.World.Transition.Staging.{next_intent, next_command, stage_all_lem}
use stalker_mp.World.Transition.Settling.{settled, answer_of, reconcile_lem}

pub command_lt-ByKey : ByKey command_key command_lt
unfolding command_lt
command_lt-ByKey x y h = ground arith

-- No id is on both lists.
abbrev pub Disjoint : Bubble → Type 0
Disjoint b = (j : ℕ) → has b.activations j ≡ true → has b.deactivations j ≡ false

-- The intent of an id, once the engine has been asked.
abbrev pub reconciled : Surroundings → TransitionManager → ℕ → TransitionState
reconciled w m j = settled (answer_of w.gateway j) (state_of m j)

-- A tick with a bubble whose two lists are disjoint, in whatever order, on a manager with a valid store:
-- the store stays valid; the intent of each id is the one that the engine's answer settles, and then that
-- of the loop whose list has the id; the batch is in ascending order of the ids and has for each id the
-- command that its loop stages, and no other.
pub update_lem :
    (w : Surroundings) {b : Bubble} (tick : ℕ) (m : TransitionManager)
    → w.bubble ≡ some b
    → IsValid m.intent
    → Disjoint b
    → let m' = update w tick m in
      IsValid m'.intent
      × Ascending command_key m'.staged_batch
      × ((j : ℕ) → state_of m' j ≡ next_intent w.registry b (reconciled w m j) j)
      × ((j : ℕ)
          → lookup command_key m'.staged_batch j ≡ next_command w.registry b (reconciled w m j) j)
unfolding update
update_lem w {b} tick m h v disjoint =
    let (v', settles) = reconcile_lem w.gateway m.intent v in
    let (staged, s) = stage_all w.registry b (reconcile w.gateway m.intent) in
    let (v'', distinct, gets, finds) =
      stage_all_lem w.registry b (reconcile w.gateway m.intent) v' disjoint in
    rw h (
      v'',
      sort-Ascending command_key command_lt command_lt-ByKey staged distinct,
      λ j. gets j ∙ ap (λ state. next_intent w.registry b state j) (settles j),
      λ j.
          lookup-sort command_key command_lt staged j distinct
          ∙ finds j
          ∙ ap (λ state. next_command w.registry b state j) (settles j),
    )
