-- ===== src/Net/Queues/Laws.antt =====
-- Backpressure on the reliable channel, newest-wins on the unreliable one, and the bounds.
use stalker_mp.Base.{
  ℕ, ◌+◌, ◌-◌, ◌≤◌, ◌<◌, ◌≡◌, refl, ◌⊎◌, inl, inr, true, List, [], ◌∷◌, ◌++◌, Option, none, some,
  length, drop, arith, length-append,
}
use stalker_mp.Net.Types.{Channel}
use stalker_mp.Net.Queues.{
  PacketQueues, Queue, EnqueueResult, push, pop, enqueue_outgoing, enqueue_incoming,
  dequeue_outgoing, dequeue_incoming, clear, validate_consistency,
}

drop_one : (n : ℕ) (b : List ℕ) (q : Queue) → n ≡ 1 → drop n (b ∷ q) ≡ q
drop_one n b q e = rw e

-- Putting a datagram into a queue that is within a positive bound, on each branch. With room it goes to
-- the end. In a full queue the reliable channel refuses it and keeps the queue, and the unreliable one
-- keeps the newest datagrams, as many as the bound. The queue stays within the bound, and the deque is
-- never popped empty.
pub push_lem :
    (q : Queue) (max : ℕ) (channel : Channel) (bytes : List ℕ)
    → 0 < max
    → length q ≤ max
    → (length q < max) × (push q max channel bytes ≡ some (EnqueueResult.enqueued, q ++ bytes ∷ []))
      ⊎ (length q ≡ max)
        × (channel ≡ Channel.reliable)
        × (push q max channel bytes ≡ some (EnqueueResult.reliable_overflow, q))
      ⊎ (length q ≡ max)
        × (channel ≡ Channel.unreliable)
        × (push q max channel bytes
            ≡ some (EnqueueResult.dropped_oldest, drop (length q + 1 - max) (q ++ bytes ∷ [])))
        × (length (drop (length q + 1 - max) (q ++ bytes ∷ [])) ≡ max)
unfolding push
push_lem [] max channel bytes pos bound = ground arith
push_lem (b ∷ q) max Channel.reliable bytes pos bound = ground arith
push_lem (b ∷ q) max Channel.unreliable bytes pos bound = ground (
  arith,
  length-append q (bytes ∷ []),
  λ (e : length q + 1 ≡ max). drop_one (length q + 1 + 1 - max) b (q ++ bytes ∷ []) (omega arith),
)

-- The calls of the owner.
pub data Call : Type 0 where
  puts_out puts_in : Channel → List ℕ → Call
  takes_out takes_in : Channel → Call
  clears : Call

unfoldable pub step : PacketQueues → Call → Option PacketQueues
step p (puts_out channel bytes) = elim (enqueue_outgoing p channel bytes) [
  | none ↦ none
  | some (out, p') ↦ some p'
]
step p (puts_in channel bytes) = elim (enqueue_incoming p channel bytes) [
  | none ↦ none
  | some (out, p') ↦ some p'
]
step p (takes_out channel) = some (dequeue_outgoing p channel).1
step p (takes_in channel) = some (dequeue_incoming p channel).1
step p clears = some (clear p)

unfoldable pub run : PacketQueues → List Call → Option PacketQueues
run p [] = some p
run p (c ∷ cs) = elim (step p c) [ none ↦ none | some p' ↦ run p' cs ]

-- Positive bounds, and every queue within its bound.
pub record IsValid (p : PacketQueues) : Type 0 where
  pub some_out : 0 < p.max_outgoing
  pub some_in : 0 < p.max_incoming
  pub consistent : validate_consistency p ≡ true

-- No fault, and a valid object.
abbrev Survives : Option PacketQueues → Type 0
Survives none = ⊥
Survives (some p) = IsValid p

push-bounded :
    (q : Queue) (max : ℕ) (channel : Channel) (bytes : List ℕ)
    → 0 < max
    → length q ≤ max
    → (out : EnqueueResult) × (q' : Queue) × (push q max channel bytes ≡ some (out, q'))
      × (length q' ≤ max)
push-bounded q max channel bytes pos bound = elim (push_lem q max channel bytes pos bound) [
  | inl (room, e) ↦ (_, _, e, omega (arith, length-append q (bytes ∷ [])))
  | inr (inl (full, _, e)) ↦ (_, _, e, omega arith)
  | inr (inr (full, _, e, n)) ↦ (_, _, e, omega (arith, n))
]

length-pop : (q : Queue) → length (pop q).1 ≤ length q
unfolding pop
length-pop [] = omega arith
length-pop (b ∷ q) = omega arith

step-IsValid : (p : PacketQueues) (c : Call) → IsValid p → Survives (step p c)
unfolding step validate_consistency enqueue_outgoing enqueue_incoming dequeue_outgoing
    dequeue_incoming clear
step-IsValid p (puts_out Channel.reliable bytes) v =
    let (out, q, e, b) =
      push-bounded p.outgoing.reliable p.max_outgoing Channel.reliable bytes v.some_out
        (ground (arith, v.consistent)) in
    rw (Survives, e)
      (record {
        some_out = v.some_out;
        some_in = v.some_in;
        consistent = ground (arith, v.consistent);
      })
step-IsValid p (puts_out Channel.unreliable bytes) v =
    let (out, q, e, b) =
      push-bounded p.outgoing.unreliable p.max_outgoing Channel.unreliable bytes v.some_out
        (ground (arith, v.consistent)) in
    rw (Survives, e)
      (record {
        some_out = v.some_out;
        some_in = v.some_in;
        consistent = ground (arith, v.consistent);
      })
step-IsValid p (puts_in Channel.reliable bytes) v =
    let (out, q, e, b) =
      push-bounded p.incoming.reliable p.max_incoming Channel.reliable bytes v.some_in
        (ground (arith, v.consistent)) in
    rw (Survives, e)
      (record {
        some_out = v.some_out;
        some_in = v.some_in;
        consistent = ground (arith, v.consistent);
      })
step-IsValid p (puts_in Channel.unreliable bytes) v =
    let (out, q, e, b) =
      push-bounded p.incoming.unreliable p.max_incoming Channel.unreliable bytes v.some_in
        (ground (arith, v.consistent)) in
    rw (Survives, e)
      (record {
        some_out = v.some_out;
        some_in = v.some_in;
        consistent = ground (arith, v.consistent);
      })
step-IsValid p (takes_out Channel.reliable) v = (record {
  some_out = v.some_out;
  some_in = v.some_in;
  consistent = ground (arith, v.consistent, length-pop p.outgoing.reliable);
})
step-IsValid p (takes_out Channel.unreliable) v = (record {
  some_out = v.some_out;
  some_in = v.some_in;
  consistent = ground (arith, v.consistent, length-pop p.outgoing.unreliable);
})
step-IsValid p (takes_in Channel.reliable) v = (record {
  some_out = v.some_out;
  some_in = v.some_in;
  consistent = ground (arith, v.consistent, length-pop p.incoming.reliable);
})
step-IsValid p (takes_in Channel.unreliable) v = (record {
  some_out = v.some_out;
  some_in = v.some_in;
  consistent = ground (arith, v.consistent, length-pop p.incoming.unreliable);
})
step-IsValid p clears v = (record {
  some_out = v.some_out;
  some_in = v.some_in;
  consistent = ground arith;
})

run-Survives : (p : PacketQueues) (cs : List Call) → IsValid p → Survives (run p cs)
unfolding run
run-Survives p [] v = v
run-Survives p (c ∷ cs) v = after_step (step p c) (λ q w. run-Survives q cs w) (step-IsValid p c v)
  where
    after_step :
        (next : Option PacketQueues)
        → ((q : PacketQueues) → IsValid q → Survives (run q cs))
        → Survives next
        → Survives (elim next [ none ↦ none | some p' ↦ run p' cs ])
    after_step none k s = s
    after_step (some q) k s = k q s

-- With positive bounds, from queues within their bounds, every sequence of calls runs without popping an empty
-- deque and leaves every queue within its bound.
pub run-IsValid :
    (p : PacketQueues) (cs : List Call)
    → IsValid p
    → (p' : PacketQueues) × (run p cs ≡ some p') × IsValid p'
run-IsValid p cs v = found (run p cs) (run-Survives p cs v)
  where
    found :
        (o : Option PacketQueues) → Survives o → (p' : PacketQueues) × (o ≡ some p') × IsValid p'
    found none s = absurd s
    found (some q) s = (q, refl, s)
