-- ===== src/Replication/Queues/Calls.antt =====
-- The two replication queues against two bounded lists, for every history of calls.
use stalker_mp.Base.{ℕ, List, [], ◌∷◌, ◌++◌, Option, none, some, map}
use stalker_mp.Ring.{Ring}
use stalker_mp.Replication.Delta.{ReplicationChangeSet}
use stalker_mp.Replication.Queues.{
  ReplicationOutcome, ReplicationChangeKind, first_failure, dequeue_fixed, QueuedRecord,
  ReplicationQueues, clear_queues, enqueue_change_set, removal, make_record,
}
use stalker_mp.Replication.Queues.Laws.{fill_to, verdict}
use stalker_mp.Replication.Queues.Loops.{Queued}

-- The specification: two lists of at most m and n records.
pub record Waiting (V : Type 0) : Type 0 where
  pub reliable_items : List (QueuedRecord V)
  pub unreliable_items : List (QueuedRecord V)

pub data Call (V : Type 0) : Type 0 where
  offers : ReplicationChangeSet V → Call V
  takes_reliable : Call V
  takes_unreliable : Call V
  clears : Call V

pub data Answer (V : Type 0) : Type 0 where
  outcome : ReplicationOutcome → Answer V
  taken : Option (QueuedRecord V) → Answer V
  cleared : Answer V

module _ {V : Type 0} where
  abbrev first_of : List (QueuedRecord V) → Option (QueuedRecord V)
  first_of [] = none
  first_of (x ∷ xs) = some x

  abbrev rest_of : List (QueuedRecord V) → List (QueuedRecord V)
  rest_of [] = []
  rest_of (x ∷ xs) = xs

  abbrev pub nothing_waits : Waiting V
  nothing_waits = record { reliable_items = []; unreliable_items = [] }

  module _ (zero_vec : V) (m n : ℕ) where
    abbrev pub certain : ReplicationChangeSet V → List (QueuedRecord V)
    certain c =
        map (removal zero_vec) c.removed
        ++ map (make_record ReplicationChangeKind.entity_spawn) c.added

    abbrev pub moves : ReplicationChangeSet V → List (QueuedRecord V)
    moves c = map (make_record ReplicationChangeKind.position) c.changed

    abbrev pub step_waiting : Waiting V → Call V → Answer V × Waiting V
    step_waiting w (offers c) = (
      outcome (
          first_failure (verdict m w.reliable_items (certain c))
            (verdict n w.unreliable_items (moves c))),
      record {
        reliable_items = fill_to m w.reliable_items (certain c);
        unreliable_items = fill_to n w.unreliable_items (moves c);
      },
    )
    step_waiting w takes_reliable =
        (taken (first_of w.reliable_items), record w { reliable_items = rest_of w.reliable_items })
    step_waiting w takes_unreliable = (
      taken (first_of w.unreliable_items),
      record w { unreliable_items = rest_of w.unreliable_items },
    )
    step_waiting w clears = (cleared, nothing_waits)

    abbrev pub step : ReplicationQueues V → Call V → Answer V × ReplicationQueues V
    step q (offers c) = let (o, q') = enqueue_change_set zero_vec q c in (outcome o, q')
    step q takes_reliable =
        let (r, queue') = dequeue_fixed q.reliable_queue in
        (taken r, record q { reliable_queue = queue' })
    step q takes_unreliable =
        let (r, queue') = dequeue_fixed q.unreliable_queue in
        (taken r, record q { unreliable_queue = queue' })
    step q clears = (cleared, clear_queues q)

    abbrev pub run : ReplicationQueues V → List (Call V) → List (Answer V) × ReplicationQueues V
    run q [] = ([], q)
    run q (c ∷ cs) = let (a, q') = step q c in let (rest, q'') = run q' cs in (a ∷ rest, q'')

    abbrev pub run_waiting : Waiting V → List (Call V) → List (Answer V) × Waiting V
    run_waiting w [] = ([], w)
    run_waiting w (c ∷ cs) =
        let (a, w') = step_waiting w c in let (rest, w'') = run_waiting w' cs in (a ∷ rest, w'')

    abbrev Refines : ReplicationQueues V → Waiting V → Type 0
    Refines q w = Queued m n q w.reliable_items w.unreliable_items
