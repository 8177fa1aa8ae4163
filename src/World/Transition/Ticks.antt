-- ===== src/World/Transition/Ticks.antt =====
-- `TransitionManager::Update` over several ticks: what the order of the bubble's lists matters, what it
-- takes for an intent to be online, and that a pending intent settles once the engine answers.
use stalker_mp.Base.{
  ◌≢◌, ℕ, ◌≡◌, refl, sym, ap, ◌∙◌, inl, inr, ◌⊎◌, Bool, true, false, List, [], ◌∷◌, Option, none,
  some, has, arith,
}
use stalker_mp.Keyed.Canonical.{lookup-injective}
use stalker_mp.World.Intents.{TransitionState}
use stalker_mp.World.Intents.Laws.{IsValid}
use stalker_mp.World.Transition.{
  TransitionManager, Surroundings, Bubble, Gateway, command_key, state_of, update, apply_batch,
}
use stalker_mp.World.Transition.Report.{validate_consistency, result_is_consistent}
use stalker_mp.World.Transition.Staging.{next_intent, next_command, staged_intent}
use stalker_mp.World.Transition.Settling.{settled, answer_of}
use stalker_mp.World.Transition.Laws.{Disjoint, reconciled, update_lem}
use stalker_mp.World.Transition.Health.{update_outcomes}

abbrev pub SameMembers : Bubble → Bubble → Type 0
SameMembers b c =
    ((j : ℕ) → has b.activations j ≡ has c.activations j)
    × ((j : ℕ) → has b.deactivations j ≡ has c.deactivations j)

abbrev pub with_bubble : Option (ℕ → Bool) → Option Gateway → Bubble → Surroundings
with_bubble registry gateway b = record { bubble = some b; registry = registry; gateway = gateway }

next-SameMembers :
    (registry : Option (ℕ → Bool)) (b c : Bubble) (state : TransitionState) (j : ℕ)
    → SameMembers b c
    → (next_intent registry b state j ≡ next_intent registry c state j)
      × (next_command registry b state j ≡ next_command registry c state j)
unfolding next_intent next_command
next-SameMembers registry b c state j (act, deact) = (rw (act j, deact j), rw (act j, deact j))

Disjoint-SameMembers : (b c : Bubble) → SameMembers b c → Disjoint b → Disjoint c
Disjoint-SameMembers b c (act, deact) d j h = sym (deact j) ∙ d j (act j ∙ h)

-- The order and the repetitions in the bubble's two lists do not matter: where two bubbles with disjoint
-- lists have the same members, a tick on a manager with a valid store stages the same batch, records the
-- same outcomes and the same result, and leaves every entity the same intent.
pub update-order :
    (registry : Option (ℕ → Bool)) (gateway : Option Gateway) (b c : Bubble) (tick : ℕ)
    (m : TransitionManager)
    → IsValid m.intent
    → Disjoint b
    → SameMembers b c
    → let m' = update (with_bubble registry gateway b) tick m in
      let m'' = update (with_bubble registry gateway c) tick m in
      (m'.staged_batch ≡ m''.staged_batch)
      × (m'.last_records ≡ m''.last_records)
      × (m'.last_result ≡ m''.last_result)
      × ((j : ℕ) → state_of m' j ≡ state_of m'' j)
update-order registry gateway b c tick m v disjoint same =
    let w = with_bubble registry gateway b in
    let x = with_bubble registry gateway c in
    let m' = update w tick m in
    let m'' = update x tick m in
    let (_, ascends, gets, finds) = update_lem w tick m refl v disjoint in
    let (_, ascends', gets', finds') =
      update_lem x tick m refl v (Disjoint-SameMembers b c same disjoint) in
    let (records, result, _) = update_outcomes w tick m refl in
    let (records', result', _) = update_outcomes x tick m refl in
    let batches : m'.staged_batch ≡ m''.staged_batch =
      lookup-injective command_key m'.staged_batch m''.staged_batch ascends ascends' (λ j.
        finds j ∙ (next-SameMembers registry b c (reconciled w m j) j same).1 ∙ sym (finds' j)) in
    (
      batches,
      records ∙ ap (λ batch. (apply_batch gateway batch).0) batches ∙ sym records',
      result
          ∙ ap
              (λ batch.
                let (_, on, off) = apply_batch gateway batch in
                record { brought_online = on; brought_offline = off; tick = tick })
              batches
          ∙ sym result',
      λ j. gets j ∙ (next-SameMembers registry b c (reconciled w m j) j same).0 ∙ sym (gets' j),
    )

-- After a tick with a bubble whose lists are disjoint, on a manager with a valid store, an entity is
-- online only if it was, or if its activation was pending and the engine answered that it is online.
pub update-online :
    (w : Surroundings) {b : Bubble} (tick : ℕ) (m : TransitionManager) (j : ℕ)
    → w.bubble ≡ some b
    → IsValid m.intent
    → Disjoint b
    → state_of (update w tick m) j ≡ TransitionState.online
    → (state_of m j ≡ TransitionState.online)
      ⊎ (state_of m j ≡ TransitionState.pending_online) × (answer_of w.gateway j ≡ some true)
unfolding next_intent staged_intent
update-online w {b} tick m j h v disjoint now =
    let (_, _, gets, _) = update_lem w tick m h v disjoint in ground (arith, gets j, now)

-- One tick of a history: the number of the tick and what it sees.
abbrev pub Ticks : Type 0
Ticks = List (ℕ × Surroundings)

abbrev pub run : Ticks → TransitionManager → TransitionManager
run [] m = m
run ((tick, w) ∷ ts) m = run ts (update w tick m)

-- The tick asks nothing of an entity.
abbrev pub Quiet : ℕ → Surroundings → Type 0
Quiet j w =
    (b : Bubble) × (w.bubble ≡ some b)
    × Disjoint b
    × (has b.activations j ≡ false)
    × (has b.deactivations j ≡ false)

abbrev pub AllQuiet : ℕ → Ticks → Type 0
AllQuiet j [] = Unit
AllQuiet j ((tick, w) ∷ ts) = Quiet j w × AllQuiet j ts

-- In some tick the engine gives the answer.
abbrev pub SomeAnswer : Bool → ℕ → Ticks → Type 0
SomeAnswer a j [] = ⊥
SomeAnswer a j ((tick, w) ∷ ts) = (answer_of w.gateway j ≡ some a) ⊎ SomeAnswer a j ts

-- The pending intent that an answer settles, and what it settles to.
abbrev pub pending_for : Bool → TransitionState
pending_for true = TransitionState.pending_online
pending_for false = TransitionState.pending_offline

abbrev pub settled_for : Bool → TransitionState
settled_for true = TransitionState.online
settled_for false = TransitionState.offline

update-Quiet :
    (w : Surroundings) (tick : ℕ) (m : TransitionManager) (j : ℕ)
    → IsValid m.intent
    → Quiet j w
    → IsValid (update w tick m).intent
      × (state_of (update w tick m) j ≡ settled (answer_of w.gateway j) (state_of m j))
unfolding next_intent
update-Quiet w tick m j v (b, h, disjoint, no_act, no_deact) =
    let (v', _, gets, _) = update_lem w tick m h v disjoint in (v', ground (arith, gets j))

settled-settled_for : (x : Option Bool) (a : Bool) → settled x (settled_for a) ≡ settled_for a
settled-settled_for none a = refl
settled-settled_for (some true) true = refl
settled-settled_for (some true) false = refl
settled-settled_for (some false) true = refl
settled-settled_for (some false) false = refl

settled-pending_for :
    (x : Option Bool) (a : Bool)
    → (settled x (pending_for a) ≡ pending_for a) ⊎ (settled x (pending_for a) ≡ settled_for a)
settled-pending_for none a = inl refl
settled-pending_for (some true) true = inr refl
settled-pending_for (some true) false = inl refl
settled-pending_for (some false) true = inl refl
settled-pending_for (some false) false = inr refl

settled-answer : (a : Bool) → settled (some a) (pending_for a) ≡ settled_for a
settled-answer true = refl
settled-answer false = refl

run-settled_for :
    (a : Bool) (j : ℕ) (ts : Ticks) (m : TransitionManager)
    → IsValid m.intent
    → AllQuiet j ts
    → state_of m j ≡ settled_for a
    → state_of (run ts m) j ≡ settled_for a
run-settled_for a j [] m v q h = h
run-settled_for a j ((tick, w) ∷ ts) m v (q, qs) h =
    let (v', now) = update-Quiet w tick m j v q in
    run-settled_for a j ts (update w tick m) v' qs
      (now ∙ ap (settled (answer_of w.gateway j)) h ∙ settled-settled_for (answer_of w.gateway j) a)

-- A pending intent settles: from a manager with a valid store on which an entity's activation
-- (deactivation) is pending, over ticks whose bubbles have disjoint lists without that entity, if the
-- engine answers in some tick that the entity is online (offline), then at the end its intent is online
-- (offline).
pub run-settles :
    (a : Bool) (j : ℕ) (ts : Ticks) (m : TransitionManager)
    → IsValid m.intent
    → AllQuiet j ts
    → state_of m j ≡ pending_for a
    → SomeAnswer a j ts
    → state_of (run ts m) j ≡ settled_for a
run-settles a j [] m v q h never = elim never [ ]
run-settles a j ((tick, w) ∷ ts) m v (q, qs) h later =
    let (v', now) = update-Quiet w tick m j v q in
    let here = now ∙ ap (settled (answer_of w.gateway j)) h in
    elim (settled-pending_for (answer_of w.gateway j) a) [
      | inr final ↦ run-settled_for a j ts (update w tick m) v' qs (here ∙ final)
      | inl still ↦ elim later [
        | inl answer ↦
            run-settled_for a j ts (update w tick m) v' qs
              (here ∙ ap (λ x. settled x (pending_for a)) answer ∙ settled-answer a)
        | inr rest ↦ run-settles a j ts (update w tick m) v' qs (here ∙ still) rest
      ]
    ]

-- A manager without a bubble, at a tick other than the one its last result names, reports an inconsistent
-- result.
pub update-no_bubble :
    (w : Surroundings) (tick : ℕ) (m : TransitionManager)
    → w.bubble ≡ none
    → m.last_result.tick ≢ tick
    → (validate_consistency (update w tick m)).result_consistent ≡ false
unfolding update validate_consistency result_is_consistent
update-no_bubble w tick m h n = rw h (ground (arith, n))
