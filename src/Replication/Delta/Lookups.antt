-- ===== src/Replication/Delta/Lookups.antt =====
-- What the delta and the next baseline have at one id, by what the two lists have there.
use stalker_mp.Base.{
  ℕ, ◌≡◌, refl, Bool, true, false, List, [], ◌∷◌, none, some, if◌then◌else◌, has, arith,
}
use stalker_mp.Keyed.Laws.{Ascending, lookup}
use stalker_mp.Replication.Merge.Laws.{expected, merge-observed}
use stalker_mp.Replication.Delta.{
  EntityReplicationState, entity_key, no_changes, first_version, add_change, remove_change,
  entity_tracked_equal, next_version, compare_change, entity_changes, keep_or_bump,
  next_entity_baseline,
}

module _ {V : Type 0} (same_vec : V → V → Bool) where
  pub lookup-added :
      (bs cs : List (EntityReplicationState V)) (id : ℕ)
      → Ascending entity_key bs
      → Ascending entity_key cs
      → lookup entity_key (entity_changes same_vec bs cs).added id
        ≡ expected none
            (λ c. some (first_version c))
            (λ b. none)
            (λ b c. none)
            (lookup entity_key bs id)
            (lookup entity_key cs id)
  unfolding entity_changes lookup
  lookup-added bs cs id =
      merge-observed entity_key no_changes add_change remove_change (compare_change same_vec)
        (λ r. lookup entity_key r.added id) id none (λ c. some (first_version c)) (λ b. none)
        (λ b c. none)
        (record {
          of_nil = refl;
          of_added = λ c r e n. ground (arith, e, n);
          past_added = λ c r e. ground (arith, e);
          of_removed = λ b r e n. n;
          past_removed = λ b r e. refl;
          of_both = λ b c r k e n. ground (arith, k, e, n);
          past_both = λ b c r k e. ground (arith, k, e);
        })
        bs cs

  pub lookup-changed :
      (bs cs : List (EntityReplicationState V)) (id : ℕ)
      → Ascending entity_key bs
      → Ascending entity_key cs
      → lookup entity_key (entity_changes same_vec bs cs).changed id
        ≡ expected none
            (λ c. none)
            (λ b. none)
            (λ b c.
              if entity_tracked_equal same_vec b c then none else some (next_version same_vec b c))
            (lookup entity_key bs id)
            (lookup entity_key cs id)
  unfolding entity_changes lookup
  lookup-changed bs cs id =
      merge-observed entity_key no_changes add_change remove_change (compare_change same_vec)
        (λ r. lookup entity_key r.changed id) id none (λ c. none) (λ b. none)
        (λ b c.
          if entity_tracked_equal same_vec b c then none else some (next_version same_vec b c))
        (record {
          of_nil = refl;
          of_added = λ c r e n. n;
          past_added = λ c r e. refl;
          of_removed = λ b r e n. n;
          past_removed = λ b r e. refl;
          of_both = λ b c r k e n. ground (arith, k, e, n);
          past_both = λ b c r k e. ground (arith, k, e);
        })
        bs cs

  pub has-removed :
      (bs cs : List (EntityReplicationState V)) (id : ℕ)
      → Ascending entity_key bs
      → Ascending entity_key cs
      → has (entity_changes same_vec bs cs).removed id
        ≡ expected false
            (λ c. false)
            (λ b. true)
            (λ b c. false)
            (lookup entity_key bs id)
            (lookup entity_key cs id)
  unfolding entity_changes lookup
  has-removed bs cs id =
      merge-observed entity_key no_changes add_change remove_change (compare_change same_vec)
        (λ r. has r.removed id) id false (λ c. false) (λ b. true) (λ b c. false)
        (record {
          of_nil = refl;
          of_added = λ c r e n. n;
          past_added = λ c r e. refl;
          of_removed = λ b r e n. ground (arith, e, n);
          past_removed = λ b r e. ground (arith, e);
          of_both = λ b c r k e n. ground (arith, k, e, n);
          past_both = λ b c r k e. ground (arith, k, e);
        })
        bs cs

  pub lookup-next_entity_baseline :
      (bs cs : List (EntityReplicationState V)) (id : ℕ)
      → Ascending entity_key bs
      → Ascending entity_key cs
      → lookup entity_key (next_entity_baseline same_vec bs cs) id
        ≡ expected none
            (λ c. some (first_version c))
            (λ b. none)
            (λ b c. some (keep_or_bump same_vec b c))
            (lookup entity_key bs id)
            (lookup entity_key cs id)
  unfolding next_entity_baseline lookup
  lookup-next_entity_baseline bs cs id =
      merge-observed entity_key [] (λ c r. first_version c ∷ r) (λ b r. r)
        (λ b c r. keep_or_bump same_vec b c ∷ r) (λ r. lookup entity_key r id) id none
        (λ c. some (first_version c)) (λ b. none) (λ b c. some (keep_or_bump same_vec b c))
        (record {
          of_nil = refl;
          of_added = λ c r e n. ground (arith, e, n);
          past_added = λ c r e. ground (arith, e);
          of_removed = λ b r e n. n;
          past_removed = λ b r e. refl;
          of_both = λ b c r k e n. ground (arith, k, e, n);
          past_both = λ b c r k e. ground (arith, k, e);
        })
        bs cs
