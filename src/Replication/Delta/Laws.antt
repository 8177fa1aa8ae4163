-- ===== src/Replication/Delta/Laws.antt =====
-- The entity delta, applied to its baseline.
use stalker_mp.Base.{
  ℕ, ◌+◌, ◌≤◌, ◌<◌, ◌≡◌, refl, sym, ◌∙◌, ◌⊎◌, inl, inr, Bool, true, false, List, Option, none, some,
  length, ltb, if◌then◌else◌, u32, has, ErrorCode, ok, err, Bool-cases, arith,
}
use stalker_mp.Keyed.Laws.{Ascending, lookup, lookup-key}
use stalker_mp.Replication.Merge.Laws.{expected}
use stalker_mp.Replication.Delta.{
  EntityReplicationState, ReplicationChangeSet, entity_key, first_version, entity_tracked_equal,
  next_version, entity_changes, encode_entity_delta, keep_or_bump, next_entity_baseline,
}
use stalker_mp.Replication.Delta.Lookups.{
  lookup-added, lookup-changed, has-removed, lookup-next_entity_baseline,
}

module _ {V : Type 0} (same_vec : V → V → Bool) where
  -- What a client does with a change set: it forgets the removed ids and takes what is added or changed.
  abbrev pub first_some : {A : Type 0} → Option A → Option A → Option A
  first_some none b = b
  first_some (some a) b = some a

  unfoldable pub apply_changes :
      ReplicationChangeSet V
      → List (EntityReplicationState V)
      → ℕ
      → Option (EntityReplicationState V)
  apply_changes d baseline id =
      if has d.removed id
      then none
      else first_some (lookup entity_key d.added id)
          (first_some (lookup entity_key d.changed id) (lookup entity_key baseline id))

  -- The id, the position, the velocity and the state flags of two entities are equal.
  abbrev pub Alike : EntityReplicationState V → EntityReplicationState V → Type 0
  Alike a b =
      (a.id ≡ b.id)
      × (same_vec a.position b.position ≡ true)
      × (same_vec a.velocity b.velocity ≡ true)
      × (a.state_flags ≡ b.state_flags)

  -- Both absent, or equal in the replicated fields and the version.
  abbrev pub Agree : Option (EntityReplicationState V) → Option (EntityReplicationState V) → Type 0
  Agree none none = Unit
  Agree none (some b) = ⊥
  Agree (some a) none = ⊥
  Agree (some a) (some b) = Alike a b × (a.version ≡ b.version)

  -- Both absent, or equal in the replicated fields.
  abbrev pub AgreeFields :
      Option (EntityReplicationState V) → Option (EntityReplicationState V) → Type 0
  AgreeFields none none = Unit
  AgreeFields none (some b) = ⊥
  AgreeFields (some a) none = ⊥
  AgreeFields (some a) (some b) = Alike a b

  tracked-Alike :
      (a b : EntityReplicationState V)
      → a.id ≡ b.id
      → entity_tracked_equal same_vec a b ≡ true
      → Alike a b
  tracked-Alike a b k e = ground (arith, k, e)

  Alike-tracked :
      (a b : EntityReplicationState V) → Alike a b → entity_tracked_equal same_vec a b ≡ true
  Alike-tracked a b l = ground (arith, l)

  -- An entity is like itself under another version.
  Alike-reflexive :
      (e : EntityReplicationState V) (version : ℕ)
      → ((x : V) → same_vec x x ≡ true)
      → Alike (record e { version = version }) e
  Alike-reflexive e version same = (refl, same e.position, same e.velocity, refl)

  -- What the client has, by what the two lists have at the id.
  abbrev client :
      Option (EntityReplicationState V)
      → Option (EntityReplicationState V)
      → Option (EntityReplicationState V)
  client b c =
      if expected false (λ c. false) (λ b. true) (λ b c. false) b c
      then none
      else first_some (expected none (λ c. some (first_version c)) (λ b. none) (λ b c. none) b c) (
          first_some
            (expected none (λ c. none) (λ b. none)
              (λ b c.
                if entity_tracked_equal same_vec b c
                then none
                else some (next_version same_vec b c))
              b c)
            b)

  client-Agree :
      (id : ℕ) (b c : Option (EntityReplicationState V))
      → ((x : V) → same_vec x x ≡ true)
      → ((e : EntityReplicationState V) → b ≡ some e → e.id ≡ id)
      → ((e : EntityReplicationState V) → c ≡ some e → e.id ≡ id)
      → Agree (client b c) (
          expected none
            (λ c. some (first_version c))
            (λ b. none)
            (λ b c. some (keep_or_bump same_vec b c))
            b
            c)
        × AgreeFields (client b c) c
  client-Agree id none none same kb kc = (tt, tt)
  client-Agree id none (some c) same kb kc =
      ((Alike-reflexive c 1 same, refl), Alike-reflexive c 1 same)
  client-Agree id (some b) none same kb kc = (tt, tt)
  client-Agree id (some b) (some c) same kb kc =
      elim (Bool-cases (entity_tracked_equal same_vec b c)) [
        | inl e ↦
            let like = tracked-Alike b c (kb b refl ∙ sym (kc c refl)) e in
            rw e ((like, refl), like)
        | inr e ↦
            let like = Alike-reflexive c (u32 (b.version + 1)) same in rw e ((like, refl), like)
      ]

  entity_changes-Agree :
      (bs cs : List (EntityReplicationState V)) (id : ℕ)
      → Ascending entity_key bs
      → Ascending entity_key cs
      → ((x : V) → same_vec x x ≡ true)
      → Agree
          (apply_changes (entity_changes same_vec bs cs) bs id)
          (lookup entity_key (next_entity_baseline same_vec bs cs) id)
        × AgreeFields
            (apply_changes (entity_changes same_vec bs cs) bs id)
            (lookup entity_key cs id)
  unfolding apply_changes
  entity_changes-Agree bs cs id a d same =
      rw
        (
          apply_changes,
          has-removed same_vec bs cs id a d,
          lookup-added same_vec bs cs id a d,
          lookup-changed same_vec bs cs id a d,
          lookup-next_entity_baseline same_vec bs cs id a d,
        )
        (client-Agree id (lookup entity_key bs id) (lookup entity_key cs id) same
          (λ e h. lookup-key entity_key id bs h) (λ e h. lookup-key entity_key id cs h))

  -- What is sent as changed, by what the two lists have.
  abbrev pub Sent :
      Option (EntityReplicationState V)
      → Option (EntityReplicationState V)
      → Option (EntityReplicationState V)
      → Type 0
  Sent none c o = o ≡ none
  Sent (some b) none o = o ≡ none
  Sent (some b) (some c) o =
      Alike b c × (o ≡ none)
      ⊎ (¬ Alike b c) × (o ≡ some (record c { version = u32 (b.version + 1) }))

  expected-Sent :
      (id : ℕ) (b c : Option (EntityReplicationState V))
      → ((e : EntityReplicationState V) → b ≡ some e → e.id ≡ id)
      → ((e : EntityReplicationState V) → c ≡ some e → e.id ≡ id)
      → Sent b c (
          expected none
            (λ c. none)
            (λ b. none)
            (λ b c.
              if entity_tracked_equal same_vec b c then none else some (next_version same_vec b c))
            b
            c)
  expected-Sent id none none kb kc = refl
  expected-Sent id none (some c) kb kc = refl
  expected-Sent id (some b) none kb kc = refl
  expected-Sent id (some b) (some c) kb kc = elim (Bool-cases (entity_tracked_equal same_vec b c)) [
    | inl e ↦ rw e (inl (tracked-Alike b c (kb b refl ∙ sym (kc c refl)) e, refl))
    | inr e ↦ rw e (inr ((λ like. differ b c e like), refl))
  ]
    where
      differ :
          (b c : EntityReplicationState V) → entity_tracked_equal same_vec b c ≡ false → ¬ Alike b c
      differ b c e like = ground (arith, e, Alike-tracked b c like)

  -- Encoding the delta of a baseline and a current list, both ascending by id, where a vector equals itself
  -- (no NaN): with more than the maximum of added and changed entities it fails; otherwise it gives a change
  -- set. For every id, what a client has after applying it to the baseline is absent or present as in the
  -- next baseline that the host keeps and as in the current list; it has the position, the velocity and
  -- the state flags of both and the version of the next baseline. Among the changed ones are exactly the
  -- entities of both lists that are not alike in these fields, as in the current list under the version
  -- after that of the baseline.
  pub encode_entity_delta_lem :
      (bs cs : List (EntityReplicationState V)) (max_entities : ℕ)
      → Ascending entity_key bs
      → Ascending entity_key cs
      → ((x : V) → same_vec x x ≡ true)
      → let d = entity_changes same_vec bs cs in
        let emitted = length d.added + length d.changed in
        (max_entities < emitted)
          × (encode_entity_delta same_vec bs cs max_entities ≡ err ErrorCode.invalid_argument)
        ⊎ (emitted ≤ max_entities)
          × (encode_entity_delta same_vec bs cs max_entities ≡ ok d)
          × ((id : ℕ)
              → Agree
                  (apply_changes d bs id)
                  (lookup entity_key (next_entity_baseline same_vec bs cs) id)
                × AgreeFields (apply_changes d bs id) (lookup entity_key cs id))
          × ((id : ℕ)
              → Sent
                  (lookup entity_key bs id)
                  (lookup entity_key cs id)
                  (lookup entity_key d.changed id))
  unfolding encode_entity_delta
  encode_entity_delta_lem bs cs max_entities a d same =
      let r = entity_changes same_vec bs cs in
      elim (Bool-cases (ltb max_entities (length r.added + length r.changed))) [
        | inl e ↦ inl (ground (arith, e), rw (encode_entity_delta, e))
        | inr e ↦ inr (
          ground (arith, e),
          rw (encode_entity_delta, e),
          (λ id. entity_changes-Agree bs cs id a d same),
          (λ id. rw (lookup-changed same_vec bs cs id a d) (
              expected-Sent id (lookup entity_key bs id) (lookup entity_key cs id)
                (λ e h. lookup-key entity_key id bs h) (λ e h. lookup-key entity_key id cs h))),
        )
      ]
