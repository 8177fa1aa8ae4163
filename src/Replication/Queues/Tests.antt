-- ===== src/Replication/Queues/Tests.antt =====
-- A history of two queues of two places, where one change set does not fit.
use stalker_mp.Base.{ℕ, List, [], ◌∷◌}
use stalker_mp.Replication.Delta.{EntityReplicationState, ReplicationChangeSet}
use stalker_mp.Replication.Queues.{empty_state}
use stalker_mp.Replication.Queues.Calls.{Call, offers, takes_reliable, takes_unreliable}

abbrev entity : ℕ → EntityReplicationState ℕ
entity i = record (empty_state 0) { id = i }

abbrev some_changes : ReplicationChangeSet ℕ
some_changes = record {
  added = entity 4 ∷ entity 5 ∷ [];
  changed = entity 2 ∷ [];
  removed = 1 ∷ [];
  players_changed = [];
}

abbrev some_calls : List (Call ℕ)
some_calls = offers some_changes ∷ takes_reliable ∷ takes_unreliable ∷ offers some_changes ∷ []
