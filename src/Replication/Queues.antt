-- ===== src/Replication/Queues.antt =====
-- replication/ReplicationQueues.h and .cpp: the records that wait to be sent, in one queue for each kind of
-- delivery, with the classification of replication/ReplicationClassifier.h. `FixedRecordQueue` is the
-- ring of Ring.
pub mod Laws
pub mod Loops
pub mod Calls
pub mod Tests
use stalker_mp.Base.{
  ℕ, ◌+◌, Bool, ◌&&◌, List, [], ◌∷◌, Option, none, some, get_elem?, ◌==◌, if◌then◌else◌,
}
use stalker_mp.Ring.{Ring, new_ring, is_full, push_back, pop_front, clear_ring}
use stalker_mp.Replication.Delta.{EntityReplicationState, ReplicationChangeSet}

pub data ReplicationOutcome : Type 0 where
  ok client_unknown snapshot_unavailable overflow not_relevant : ReplicationOutcome

pub data ReplicationReliability : Type 0 where
  unreliable reliable : ReplicationReliability

pub data ReplicationPriority : Type 0 where
  low medium high : ReplicationPriority

pub data ReplicationChangeKind : Type 0 where
  none_kind player combat damage entity_spawn entity_remove nearby_npc inventory animation
        ambient_object weather_update distant_entity position rotation velocity camera quest_update
        player_join player_leave :
      ReplicationChangeKind

abbrev pub classify_reliability : ReplicationChangeKind → ReplicationReliability
classify_reliability none_kind = ReplicationReliability.unreliable
classify_reliability player = ReplicationReliability.unreliable
classify_reliability combat = ReplicationReliability.reliable
classify_reliability damage = ReplicationReliability.reliable
classify_reliability entity_spawn = ReplicationReliability.reliable
classify_reliability entity_remove = ReplicationReliability.reliable
classify_reliability nearby_npc = ReplicationReliability.unreliable
classify_reliability inventory = ReplicationReliability.reliable
classify_reliability animation = ReplicationReliability.unreliable
classify_reliability ambient_object = ReplicationReliability.unreliable
classify_reliability weather_update = ReplicationReliability.unreliable
classify_reliability distant_entity = ReplicationReliability.unreliable
classify_reliability position = ReplicationReliability.unreliable
classify_reliability rotation = ReplicationReliability.unreliable
classify_reliability velocity = ReplicationReliability.unreliable
classify_reliability camera = ReplicationReliability.unreliable
classify_reliability quest_update = ReplicationReliability.reliable
classify_reliability player_join = ReplicationReliability.reliable
classify_reliability player_leave = ReplicationReliability.reliable

abbrev pub classify_priority : ReplicationChangeKind → ReplicationPriority
classify_priority none_kind = ReplicationPriority.low
classify_priority player = ReplicationPriority.high
classify_priority combat = ReplicationPriority.high
classify_priority damage = ReplicationPriority.high
classify_priority entity_spawn = ReplicationPriority.high
classify_priority entity_remove = ReplicationPriority.high
classify_priority nearby_npc = ReplicationPriority.medium
classify_priority inventory = ReplicationPriority.medium
classify_priority animation = ReplicationPriority.medium
classify_priority ambient_object = ReplicationPriority.low
classify_priority weather_update = ReplicationPriority.low
classify_priority distant_entity = ReplicationPriority.low
classify_priority position = ReplicationPriority.medium
classify_priority rotation = ReplicationPriority.medium
classify_priority velocity = ReplicationPriority.medium
classify_priority camera = ReplicationPriority.low
classify_priority quest_update = ReplicationPriority.medium
classify_priority player_join = ReplicationPriority.high
classify_priority player_leave = ReplicationPriority.high

-- `if (r != Ok && outcome == Ok) outcome = r`.
abbrev pub first_failure : ReplicationOutcome → ReplicationOutcome → ReplicationOutcome
first_failure ok r = r
first_failure client_unknown r = ReplicationOutcome.client_unknown
first_failure snapshot_unavailable r = ReplicationOutcome.snapshot_unavailable
first_failure overflow r = ReplicationOutcome.overflow
first_failure not_relevant r = ReplicationOutcome.not_relevant

module _ {A : Type 0} where
  unfoldable pub enqueue_fixed : Ring A → A → ReplicationOutcome × Ring A
  enqueue_fixed r a =
      if is_full r then (ReplicationOutcome.overflow, r) else (ReplicationOutcome.ok, push_back r a)

  unfoldable pub dequeue_fixed : Ring A → Option A × Ring A
  dequeue_fixed r = if r.count == 0 then (none, r) else (get_elem? r.buffer r.head, pop_front r)

pub record QueuedRecord (V : Type 0) : Type 0 where
  pub kind : ReplicationChangeKind
  pub entity : EntityReplicationState V
  pub reliability : ReplicationReliability
  pub priority : ReplicationPriority

pub record ReplicationQueues (V : Type 0) : Type 0 where
  pub reliable_queue : Ring (QueuedRecord V)
  pub unreliable_queue : Ring (QueuedRecord V)

-- The value of `Vec3{}` is an argument.
module _ {V : Type 0} (zero_vec : V) where
  abbrev pub empty_state : EntityReplicationState V
  empty_state = record {
    id = 0;
    position = zero_vec;
    velocity = zero_vec;
    state_flags = 0;
    version = 0;
    priority = 0;
    reliability = 0;
  }

  abbrev pub empty_record : QueuedRecord V
  empty_record = record {
    kind = ReplicationChangeKind.none_kind;
    entity = empty_state;
    reliability = ReplicationReliability.unreliable;
    priority = ReplicationPriority.low;
  }

  abbrev pub new_queues : ℕ → ℕ → ReplicationQueues V
  new_queues m n = record {
    reliable_queue = new_ring empty_record m;
    unreliable_queue = new_ring empty_record n;
  }

module _ {V : Type 0} where
  abbrev pub make_record : ReplicationChangeKind → EntityReplicationState V → QueuedRecord V
  make_record k e = record {
    kind = k;
    entity = e;
    reliability = classify_reliability k;
    priority = classify_priority k;
  }

  unfoldable pub enqueue_routed :
      ReplicationQueues V → QueuedRecord V → ReplicationOutcome × ReplicationQueues V
  enqueue_routed q r =
      let (o, reliable') = enqueue_fixed q.reliable_queue r in
      let (o', unreliable') = enqueue_fixed q.unreliable_queue r in
      elim r.reliability [
        | reliable ↦ (o, record q { reliable_queue = reliable' })
        | unreliable ↦ (o', record q { unreliable_queue = unreliable' })
      ]

  -- One of the three loops.
  unfoldable pub enqueue_each :
      {B : Type 0}
      → (B → QueuedRecord V)
      → ReplicationOutcome
      → ReplicationQueues V
      → List B
      → ReplicationOutcome × ReplicationQueues V
  enqueue_each make o q [] = (o, q)
  enqueue_each make o q (b ∷ bs) =
      let (r, q') = enqueue_routed q (make b) in enqueue_each make (first_failure o r) q' bs

  abbrev pub clear_queues : ReplicationQueues V → ReplicationQueues V
  clear_queues q = record {
    reliable_queue = clear_ring q.reliable_queue;
    unreliable_queue = clear_ring q.unreliable_queue;
  }

  abbrev are_empty : ReplicationQueues V → Bool
  are_empty q = (q.reliable_queue.count == 0) && (q.unreliable_queue.count == 0)

  abbrev pub queues_size : ReplicationQueues V → ℕ
  queues_size q = q.reliable_queue.count + q.unreliable_queue.count

  abbrev pub removal : V → ℕ → QueuedRecord V
  removal zero_vec i =
      make_record ReplicationChangeKind.entity_remove (record (empty_state zero_vec) { id = i })

  abbrev pub enqueue_change_set :
      V → ReplicationQueues V → ReplicationChangeSet V → ReplicationOutcome × ReplicationQueues V
  enqueue_change_set zero_vec q c =
      let (o, q1) = enqueue_each (removal zero_vec) ReplicationOutcome.ok q c.removed in
      let (o1, q2) = enqueue_each (make_record ReplicationChangeKind.entity_spawn) o q1 c.added in
      enqueue_each (make_record ReplicationChangeKind.position) o1 q2 c.changed
