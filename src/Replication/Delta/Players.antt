-- ===== src/Replication/Delta/Players.antt =====
-- The player delta of replication/DeltaEncoder.cpp, and the order of both results.
use stalker_mp.Base.{
  ℕ, ◌+◌, ◌≡◌, refl, Bool, List, [], ◌∷◌, Option, none, some, if◌then◌else◌, u32, arith,
}
use stalker_mp.Keyed.Laws.{Above, Above-mono, Ascending, lookup}
use stalker_mp.Replication.Merge.Laws.{expected, merge-observed}
use stalker_mp.Replication.Merge.Order.{merge-Bound}
use stalker_mp.Replication.Delta.{
  PlayerReplicationState, player_key, player_tracked_equal, encode_player_delta,
}

module _ {V : Type 0} (same_vec : V → V → Bool) where
  -- What the delta has for a player that the baseline has and for one that both have.
  abbrev pub player_change :
      PlayerReplicationState V → PlayerReplicationState V → Option (PlayerReplicationState V)
  player_change b c =
      if player_tracked_equal same_vec b c
      then none
      else some (record c { version = u32 (b.version + 1) })

  lookup-encode_player_delta :
      (bs cs : List (PlayerReplicationState V)) (id : ℕ)
      → Ascending player_key bs
      → Ascending player_key cs
      → lookup player_key (encode_player_delta same_vec bs cs) id
        ≡ expected none
            (λ c. some (record c { version = 1 }))
            (λ b. none)
            player_change
            (lookup player_key bs id)
            (lookup player_key cs id)
  unfolding encode_player_delta lookup
  lookup-encode_player_delta bs cs id =
      merge-observed player_key [] (λ c r. record c { version = 1 } ∷ r) (λ b r. r)
        (λ b c r.
          if player_tracked_equal same_vec b c
          then r
          else record c { version = u32 (b.version + 1) } ∷ r)
        (λ r. lookup player_key r id) id none (λ c. some (record c { version = 1 })) (λ b. none)
        player_change
        (record {
          of_nil = refl;
          of_added = λ c r e n. ground (arith, e, n);
          past_added = λ c r e. ground (arith, e);
          of_removed = λ b r e n. n;
          past_removed = λ b r e. refl;
          of_both = λ b c r k e n. ground (arith, k, e, n);
          past_both = λ b c r k e. ground (arith, k, e);
        })
        bs cs

  encode_player_delta-Above :
      (bs cs : List (PlayerReplicationState V)) (p : ℕ)
      → Above player_key p bs
      → Above player_key p cs
      → Above player_key p (encode_player_delta same_vec bs cs)
  unfolding encode_player_delta
  encode_player_delta-Above =
      merge-Bound player_key [] (λ c r. record c { version = 1 } ∷ r) (λ b r. r)
        (λ b c r.
          if player_tracked_equal same_vec b c
          then r
          else record c { version = u32 (b.version + 1) } ∷ r)
        (Above player_key)
        (record {
          nil_bound = λ p. tt;
          added_bound = λ p c r h a. (h, a);
          removed_bound = λ p b r h a. ground (arith, h, a, Above-mono player_key p b.id r);
          both_bound = λ p b c r h k a. ground (arith, h, k, a, Above-mono player_key p b.id r);
        })
