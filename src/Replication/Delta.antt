-- ===== src/Replication/Delta.antt =====
-- replication/DeltaEncoder.cpp: what has changed for a client since its baseline, and its next baseline.
-- A vector of floats is a parameter with its comparison `==`; a version is a 32-bit number.
pub mod Lookups
pub mod Laws
pub mod Players
pub mod Tests
use stalker_mp.Base.{
  ℕ, ◌+◌, Bool, true, false, ◌&&◌, List, [], ◌∷◌, length, ltb, ◌==◌, if◌then◌else◌, u32, ErrorCode,
  Expected, ok, err,
}
use stalker_mp.Replication.Merge.{merge}

pub record EntityReplicationState (V : Type 0) : Type 0 where
  pub id : ℕ
  pub position : V
  pub velocity : V
  pub state_flags : ℕ
  pub version : ℕ
  pub priority : ℕ
  pub reliability : ℕ

pub record PlayerReplicationState (V : Type 0) : Type 0 where
  pub id : ℕ
  pub entity : ℕ
  pub position : V
  pub connection_state : ℕ
  pub authority_flags : ℕ
  pub version : ℕ

pub record ReplicationChangeSet (V : Type 0) : Type 0 where
  pub added : List (EntityReplicationState V)
  pub changed : List (EntityReplicationState V)
  pub removed : List ℕ
  pub players_changed : List (PlayerReplicationState V)

module _ {V : Type 0} where
  abbrev pub entity_key : EntityReplicationState V → ℕ
  entity_key e = e.id

  abbrev pub player_key : PlayerReplicationState V → ℕ
  player_key p = p.id

  abbrev pub no_changes : ReplicationChangeSet V
  no_changes = record { added = []; changed = []; removed = []; players_changed = [] }

  -- `EntityReplicationState e = current[ci]; e.version = 1`.
  abbrev pub first_version : EntityReplicationState V → EntityReplicationState V
  first_version c = record c { version = 1 }

  abbrev pub add_change : EntityReplicationState V → ReplicationChangeSet V → ReplicationChangeSet V
  add_change c r = record r { added = first_version c ∷ r.added }

  abbrev pub remove_change :
      EntityReplicationState V → ReplicationChangeSet V → ReplicationChangeSet V
  remove_change b r = record r { removed = b.id ∷ r.removed }

  module _ (same_vec : V → V → Bool) where
    abbrev pub entity_tracked_equal : EntityReplicationState V → EntityReplicationState V → Bool
    entity_tracked_equal a b =
        same_vec a.position b.position
        && same_vec a.velocity b.velocity
        && a.state_flags == b.state_flags

    abbrev pub player_tracked_equal : PlayerReplicationState V → PlayerReplicationState V → Bool
    player_tracked_equal a b =
        same_vec a.position b.position
        && a.connection_state == b.connection_state
        && a.authority_flags == b.authority_flags

    -- `e.version = baseline[bi].version + 1`.
    abbrev pub next_version :
        EntityReplicationState V → EntityReplicationState V → EntityReplicationState V
    next_version b c = record c { version = u32 (b.version + 1) }

    abbrev pub compare_change :
        EntityReplicationState V
        → EntityReplicationState V
        → ReplicationChangeSet V
        → ReplicationChangeSet V
    compare_change b c r =
        if entity_tracked_equal b c then r else record r { changed = next_version b c ∷ r.changed }

    unfoldable pub entity_changes :
        List (EntityReplicationState V) → List (EntityReplicationState V) → ReplicationChangeSet V
    unfolding merge
    entity_changes = merge entity_key no_changes add_change remove_change compare_change

    unfoldable pub encode_entity_delta :
        List (EntityReplicationState V)
        → List (EntityReplicationState V)
        → ℕ
        → Expected (ReplicationChangeSet V)
    unfolding entity_changes
    encode_entity_delta baseline current max_entities =
        let result = entity_changes baseline current in
        if ltb max_entities (length result.added + length result.changed)
        then err ErrorCode.invalid_argument
        else ok result

    unfoldable pub encode_player_delta :
        List (PlayerReplicationState V)
        → List (PlayerReplicationState V)
        → List (PlayerReplicationState V)
    unfolding merge
    encode_player_delta =
        merge player_key [] (λ c r. record c { version = 1 } ∷ r) (λ b r. r)
          (λ b c r.
            if player_tracked_equal b c then r else record c { version = u32 (b.version + 1) } ∷ r)

    abbrev pub keep_or_bump :
        EntityReplicationState V → EntityReplicationState V → EntityReplicationState V
    keep_or_bump b c = record c {
      version = if entity_tracked_equal b c then b.version else u32 (b.version + 1);
    }

    unfoldable pub next_entity_baseline :
        List (EntityReplicationState V)
        → List (EntityReplicationState V)
        → List (EntityReplicationState V)
    unfolding merge
    next_entity_baseline =
        merge entity_key [] (λ c r. first_version c ∷ r) (λ b r. r) (λ b c r. keep_or_bump b c ∷ r)
