-- ===== src/World/Transition/Outcomes.antt =====
-- The loop of `TransitionManager::Update` over the outcomes: the records stand parallel to the batch, and
-- the ids switched on and off are ascending and backed by applied records.
use stalker_mp.Base.{Option, ℕ, ◌≤◌, ◌<◌, ◌≡◌, refl, true, List, [], ◌∷◌, some, none, length, arith}
use stalker_mp.Keyed.Laws.{Above, Ascending, Above-Ascending}
use stalker_mp.World.Transition.{
  TransitionKind, TransitionOutcome, TransitionCommand, TransitionRecord, Gateway, command_key,
  record_outcomes, apply_batch,
}
use stalker_mp.World.Transition.Report.{
  records_parallel, records_match, ascending_after, ascending_unique, backed_by_applied_record,
  all_backed, result_is_consistent,
}

-- Every command gets at least one outcome.
abbrev pub Answers : Gateway → Type 0
Answers g = (batch : List TransitionCommand) → length batch ≤ length (g.apply batch)

abbrev pub AllAnswer : Option Gateway → Type 0
AllAnswer none = Unit
AllAnswer (some g) = Answers g

length-record_outcomes :
    (cs : List TransitionCommand) (os : List TransitionOutcome)
    → length cs ≤ length os
    → length (record_outcomes cs os).0 ≡ length cs
unfolding record_outcomes
length-record_outcomes [] os h = refl
length-record_outcomes (c ∷ cs) [] h = absurd (omega arith)
length-record_outcomes (c ∷ cs) (o ∷ os) h =
    omega (arith, length-record_outcomes cs os (omega arith))

record_outcomes-parallel :
    (cs : List TransitionCommand) (os : List TransitionOutcome)
    → records_parallel (record_outcomes cs os).0 cs ≡ true
unfolding record_outcomes records_parallel
record_outcomes-parallel [] os = refl
record_outcomes-parallel (c ∷ cs) [] = refl
record_outcomes-parallel (c ∷ cs) (o ∷ os) = ground (arith, record_outcomes-parallel cs os)

pub apply_batch-match :
    (g : Option Gateway) (batch : List TransitionCommand)
    → AllAnswer g
    → records_match (apply_batch g batch).0 batch ≡ true
unfolding records_match
apply_batch-match none batch h = refl
apply_batch-match (some g) batch h =
    matching (apply_batch (some g) batch).0 (length-record_outcomes batch (g.apply batch) (h batch))
      (record_outcomes-parallel batch (g.apply batch))
  where
    matching :
        (rs : List TransitionRecord)
        → length rs ≡ length batch
        → records_parallel rs batch ≡ true
        → records_match rs batch ≡ true
    matching [] e p = refl
    matching (r ∷ rs) e p = ground (arith)

ascending_after-lower :
    (p q : ℕ) (ids : List ℕ) → p < q → ascending_after q ids ≡ true → ascending_after p ids ≡ true
ascending_after-lower p q [] l h = refl
ascending_after-lower p q (id ∷ ids) l h = ground arith

record_outcomes-Above :
    (p : ℕ) (cs : List TransitionCommand) (os : List TransitionOutcome)
    → Above command_key p cs
    → let (_, on, off) = record_outcomes cs os in
      (ascending_after p on ≡ true) × (ascending_after p off ≡ true)
unfolding record_outcomes
record_outcomes-Above p [] os a = (refl, refl)
record_outcomes-Above p (c ∷ cs) [] a = (refl, refl)
record_outcomes-Above p (c ∷ cs) (o ∷ os) a =
    let (_, on, off) = record_outcomes cs os in
    let (rise, fall) = record_outcomes-Above c.id cs os a.1 in
    ground (
      arith,
      rise,
      fall,
      ascending_after-lower p c.id on a.0 rise,
      ascending_after-lower p c.id off a.0 fall,
    )

record_outcomes-Ascending :
    (cs : List TransitionCommand) (os : List TransitionOutcome)
    → Ascending command_key cs
    → let (_, on, off) = record_outcomes cs os in
      (ascending_unique on ≡ true) × (ascending_unique off ≡ true)
unfolding record_outcomes ascending_unique
record_outcomes-Ascending [] os a = (refl, refl)
record_outcomes-Ascending (c ∷ cs) [] a = (refl, refl)
record_outcomes-Ascending (c ∷ cs) (o ∷ os) a =
    let (_, on, off) = record_outcomes cs os in
    let (rise, fall) = record_outcomes-Above c.id cs os a in
    let (rise', fall') = record_outcomes-Ascending cs os (Above-Ascending command_key c.id cs a) in
    ground (arith, rise, fall, rise', fall')

all_backed-more :
    (r : TransitionRecord) (rs : List TransitionRecord) (kind : TransitionKind) (ids : List ℕ)
    → all_backed rs kind ids ≡ true
    → all_backed (r ∷ rs) kind ids ≡ true
unfolding all_backed backed_by_applied_record
all_backed-more r rs kind [] h = refl
all_backed-more r rs kind (id ∷ ids) h = ground (arith, all_backed-more r rs kind ids)

record_outcomes-backed :
    (cs : List TransitionCommand) (os : List TransitionOutcome)
    → let (rs, on, off) = record_outcomes cs os in
      (all_backed rs TransitionKind.activate on ≡ true)
      × (all_backed rs TransitionKind.deactivate off ≡ true)
unfolding record_outcomes all_backed backed_by_applied_record
record_outcomes-backed [] os = (refl, refl)
record_outcomes-backed (c ∷ cs) [] = (refl, refl)
record_outcomes-backed (c ∷ cs) (o ∷ os) =
    let (rs, on, off) = record_outcomes cs os in
    let (up, down) = record_outcomes-backed cs os in
    let r : TransitionRecord = record { id = c.id; kind = c.kind; outcome = o } in
    ground (
      arith,
      all_backed-more r rs TransitionKind.activate on up,
      all_backed-more r rs TransitionKind.deactivate off down,
    )

pub apply_batch-consistent :
    (g : Option Gateway) (batch : List TransitionCommand) (tick : ℕ)
    → Ascending command_key batch
    → let (records, on, off) = apply_batch g batch in
      result_is_consistent records
        (record { brought_online = on; brought_offline = off; tick = tick })
        tick
      ≡ true
unfolding result_is_consistent ascending_unique all_backed
apply_batch-consistent none batch tick a = ground arith
apply_batch-consistent (some g) batch tick a =
    let (rise, fall) = record_outcomes-Ascending batch (g.apply batch) a in
    let (up, down) = record_outcomes-backed batch (g.apply batch) in
    ground (arith, rise, fall, up, down)
