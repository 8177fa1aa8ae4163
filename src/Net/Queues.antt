-- ===== src/Net/Queues.antt =====
-- net/PacketQueues.h: bounded queues of datagrams, for each direction and channel. `none` is the undefined
-- `pop_front` of an empty deque, which a bound of 0 on the unreliable channel leads to.
pub mod Laws
pub mod Tests
use stalker_mp.Base.{
  ℕ, ◌+◌, Bool, true, false, ◌&&◌, List, [], ◌∷◌, ◌++◌, Option, none, some, length, leb,
  if◌then◌else◌,
}
use stalker_mp.Net.Types.{Channel}

pub data EnqueueResult : Type 0 where
  enqueued dropped_oldest reliable_overflow : EnqueueResult

abbrev pub Queue : Type 0
Queue = List (List ℕ)

-- An array of two queues, by channel.
pub record Queues : Type 0 where
  pub reliable : Queue
  pub unreliable : Queue

abbrev pub queue_of : Channel → Queues → Queue
queue_of Channel.reliable qs = qs.reliable
queue_of Channel.unreliable qs = qs.unreliable

abbrev pub with_queue : Channel → Queue → Queues → Queues
with_queue Channel.reliable q qs = record qs { reliable = q }
with_queue Channel.unreliable q qs = record qs { unreliable = q }

pub record PacketQueues : Type 0 where
  pub max_outgoing : ℕ
  pub max_incoming : ℕ
  pub outgoing : Queues
  pub incoming : Queues

drop_oldest : Queue → List ℕ → Option (EnqueueResult × Queue)
drop_oldest [] bytes = none
drop_oldest (b ∷ q) bytes = some (EnqueueResult.dropped_oldest, q ++ bytes ∷ [])

unfoldable pub push : Queue → ℕ → Channel → List ℕ → Option (EnqueueResult × Queue)
unfolding drop_oldest
push q max channel bytes =
    if leb max (length q)
    then (elim channel [
      | Channel.reliable ↦ some (EnqueueResult.reliable_overflow, q)
      | Channel.unreliable ↦ drop_oldest q bytes
    ])
    else some (EnqueueResult.enqueued, q ++ bytes ∷ [])

unfoldable pub pop : Queue → Option (List ℕ) × Queue
pop [] = (none, [])
pop (b ∷ q) = (some b, q)

unfoldable pub enqueue_outgoing :
    PacketQueues → Channel → List ℕ → Option (EnqueueResult × PacketQueues)
unfolding push
enqueue_outgoing p channel bytes =
    elim (push (queue_of channel p.outgoing) p.max_outgoing channel bytes) [
      | none ↦ none
      | some (out, q) ↦ some (out, record p { outgoing = with_queue channel q p.outgoing })
    ]

unfoldable pub enqueue_incoming :
    PacketQueues → Channel → List ℕ → Option (EnqueueResult × PacketQueues)
unfolding push
enqueue_incoming p channel bytes =
    elim (push (queue_of channel p.incoming) p.max_incoming channel bytes) [
      | none ↦ none
      | some (out, q) ↦ some (out, record p { incoming = with_queue channel q p.incoming })
    ]

unfoldable pub dequeue_outgoing : PacketQueues → Channel → Option (List ℕ) × PacketQueues
unfolding pop
dequeue_outgoing p channel =
    let (front, q) = pop (queue_of channel p.outgoing) in
    (front, record p { outgoing = with_queue channel q p.outgoing })

unfoldable pub dequeue_incoming : PacketQueues → Channel → Option (List ℕ) × PacketQueues
unfolding pop
dequeue_incoming p channel =
    let (front, q) = pop (queue_of channel p.incoming) in
    (front, record p { incoming = with_queue channel q p.incoming })

unfoldable pub clear : PacketQueues → PacketQueues
clear p = record p {
  outgoing = record { reliable = []; unreliable = [] };
  incoming = record { reliable = []; unreliable = [] };
}

unfoldable pub validate_consistency : PacketQueues → Bool
validate_consistency p =
    leb (length p.outgoing.reliable) p.max_outgoing
    && leb (length p.outgoing.unreliable) p.max_outgoing
    && leb (length p.incoming.reliable) p.max_incoming
    && leb (length p.incoming.unreliable) p.max_incoming
