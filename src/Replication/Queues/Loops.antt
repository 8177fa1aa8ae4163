-- ===== src/Replication/Queues/Loops.antt =====
-- The loops of `EnqueueChangeSet` over records of one kind of delivery.
use stalker_mp.Base.{ℕ, ◌≡◌, refl, sym, ap, ◌∙◌, List, [], ◌∷◌, map, arith}
use stalker_mp.Replication.Queues.{
  ReplicationOutcome, ReplicationReliability, first_failure, enqueue_fixed, QueuedRecord,
  ReplicationQueues, enqueue_routed, enqueue_each,
}
use stalker_mp.Replication.Queues.Laws.{
  fill_to, verdict, fill_to-nil, fill_to-append, Filled, Filled-bounded, enqueue_fixed-Filled,
}

first_failure_assoc :
    (a b c : ReplicationOutcome)
    → first_failure (first_failure a b) c ≡ first_failure a (first_failure b c)
first_failure_assoc ReplicationOutcome.ok b c = refl
first_failure_assoc ReplicationOutcome.client_unknown b c = refl
first_failure_assoc ReplicationOutcome.snapshot_unavailable b c = refl
first_failure_assoc ReplicationOutcome.overflow b c = refl
first_failure_assoc ReplicationOutcome.not_relevant b c = refl

first_failure_ok : (o : ReplicationOutcome) → first_failure o ReplicationOutcome.ok ≡ o
first_failure_ok ReplicationOutcome.ok = refl
first_failure_ok ReplicationOutcome.client_unknown = refl
first_failure_ok ReplicationOutcome.snapshot_unavailable = refl
first_failure_ok ReplicationOutcome.overflow = refl
first_failure_ok ReplicationOutcome.not_relevant = refl

module _ {V : Type 0} where
  routed_reliable :
      (q : ReplicationQueues V) (r : QueuedRecord V)
      → r.reliability ≡ ReplicationReliability.reliable
      → enqueue_routed q r ≡ (
        (enqueue_fixed q.reliable_queue r).0,
        record q { reliable_queue = (enqueue_fixed q.reliable_queue r).1 },
      )
  unfolding enqueue_routed
  routed_reliable q r h = simp (enqueue_routed, h)

  routed_unreliable :
      (q : ReplicationQueues V) (r : QueuedRecord V)
      → r.reliability ≡ ReplicationReliability.unreliable
      → enqueue_routed q r ≡ (
        (enqueue_fixed q.unreliable_queue r).0,
        record q { unreliable_queue = (enqueue_fixed q.unreliable_queue r).1 },
      )
  unfolding enqueue_routed
  routed_unreliable q r h = simp (enqueue_routed, h)

  -- The queues hold two lists.
  pub record Queued (m n : ℕ) (q : ReplicationQueues V) (xs ys : List (QueuedRecord V))
      : Type 0 where
    pub reliable_filled : Filled m q.reliable_queue xs
    pub unreliable_filled : Filled n q.unreliable_queue ys

  module _ {B : Type 0} (make : B → QueuedRecord V) (m n : ℕ) where
    pub enqueue_each-reliable :
        (o : ReplicationOutcome) (q : ReplicationQueues V) (xs ys : List (QueuedRecord V))
        (bs : List B)
        → ((b : B) → (make b).reliability ≡ ReplicationReliability.reliable)
        → Queued m n q xs ys
        → let (o', q') = enqueue_each make o q bs in
          (o' ≡ first_failure o (verdict m xs (map make bs)))
          × Queued m n q' (fill_to m xs (map make bs)) ys
    unfolding enqueue_each
    enqueue_each-reliable o q xs ys [] h f =
        let fits : verdict m xs [] ≡ ReplicationOutcome.ok = ground arith in
        rw (fill_to-nil m xs, fits) (sym (first_failure_ok o), f)
    enqueue_each-reliable o q xs ys (b ∷ bs) h f =
        let (answer, stored) =
          enqueue_fixed-Filled m q.reliable_queue xs (make b) f.reliable_filled in
        let (joined, total) =
          fill_to-append m xs (make b ∷ []) (map make bs)
            (Filled-bounded m q.reliable_queue xs f.reliable_filled) in
        let (out, done) =
          enqueue_each-reliable (first_failure o (enqueue_fixed q.reliable_queue (make b)).0)
            (record q { reliable_queue = (enqueue_fixed q.reliable_queue (make b)).1 })
            (fill_to m xs (make b ∷ [])) ys bs h
            (record { reliable_filled = stored; unreliable_filled = f.unreliable_filled }) in
        rw (enqueue_each, routed_reliable q (make b) (h b), ← joined)
          (
            out
                ∙ first_failure_assoc o (enqueue_fixed q.reliable_queue (make b)).0
                    (verdict m (fill_to m xs (make b ∷ [])) (map make bs))
                ∙ ap (first_failure o) (
                    ap (λ v. first_failure v (verdict m (fill_to m xs (make b ∷ [])) (map make bs)))
                      answer
                    ∙ total),
            done,
          )

    pub enqueue_each-unreliable :
        (o : ReplicationOutcome) (q : ReplicationQueues V) (xs ys : List (QueuedRecord V))
        (bs : List B)
        → ((b : B) → (make b).reliability ≡ ReplicationReliability.unreliable)
        → Queued m n q xs ys
        → let (o', q') = enqueue_each make o q bs in
          (o' ≡ first_failure o (verdict n ys (map make bs)))
          × Queued m n q' xs (fill_to n ys (map make bs))
    unfolding enqueue_each
    enqueue_each-unreliable o q xs ys [] h f =
        let fits : verdict n ys [] ≡ ReplicationOutcome.ok = ground arith in
        rw (fill_to-nil n ys, fits) (sym (first_failure_ok o), f)
    enqueue_each-unreliable o q xs ys (b ∷ bs) h f =
        let (answer, stored) =
          enqueue_fixed-Filled n q.unreliable_queue ys (make b) f.unreliable_filled in
        let (joined, total) =
          fill_to-append n ys (make b ∷ []) (map make bs)
            (Filled-bounded n q.unreliable_queue ys f.unreliable_filled) in
        let (out, done) =
          enqueue_each-unreliable (first_failure o (enqueue_fixed q.unreliable_queue (make b)).0)
            (record q { unreliable_queue = (enqueue_fixed q.unreliable_queue (make b)).1 }) xs
            (fill_to n ys (make b ∷ [])) bs h
            (record { reliable_filled = f.reliable_filled; unreliable_filled = stored }) in
        rw (enqueue_each, routed_unreliable q (make b) (h b), ← joined)
          (
            out
                ∙ first_failure_assoc o (enqueue_fixed q.unreliable_queue (make b)).0
                    (verdict n (fill_to n ys (make b ∷ [])) (map make bs))
                ∙ ap (first_failure o) (
                    ap (λ v. first_failure v (verdict n (fill_to n ys (make b ∷ [])) (map make bs)))
                      answer
                    ∙ total),
            done,
          )
