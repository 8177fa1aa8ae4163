-- ===== src/Player/Registry/History.antt =====
-- player/PlayerRegistry.cpp: what insertion and retirement do, and any history of them.
use stalker_mp.Base.{
  ◌+◌, ==_iff, subst, ℕ, ◌≤◌, ◌<◌, ◌≡◌, refl, sym, ap, ◌∙◌, ◌⊎◌, inl, inr, true, List, [], ◌∷◌,
  none, some, is_some, length, insert_at, erase_at, leb, ◌==◌, if◌then◌else◌, Bool-cases, ErrorCode,
  Expected, ok, err, arith, length-insert_at, length-erase_at-le, Option-cases,
}
use stalker_mp.Keyed.{lower_bound}
use stalker_mp.Keyed.Laws.{Ascending}
use stalker_mp.Keyed.Ascending.{
  is_at-Ascending, insert-Ascending, lookup-insert_Ascending, erase-Ascending,
  lookup-erase_Ascending,
}
use stalker_mp.Keyed.Position.{lower_bound-index_of}
use stalker_mp.Player.Types.{PlayerRecord, player_key}
use stalker_mp.Player.Registry.{
  PlayerRegistry, new_registry, lower_bound_index, rebuild_accelerators, stands_at, insert, retire,
  allocate,
}
use stalker_mp.Player.Registry.Search.{lower_bound_index_lem}
use stalker_mp.Player.Registry.Laws.{IsValid, player, new_registry-IsValid, Finds, IsValid-Finds}

pub data Call (V : Type 0) : Type 0 where
  inserts : PlayerRecord V → Call V
  retires : ℕ → Call V
  allocates : Call V

module _ {V : Type 0} where
  stands_at-player :
      (p : PlayerRegistry V) (id : ℕ)
      → IsValid p
      → stands_at p.records (lower_bound_index p.records id) id ≡ is_some (player p id)
  unfolding player
  stands_at-player p id v =
      ap (λ i. stands_at p.records i id)
        ((lower_bound_index_lem p.records id (length p.records + 1) v.ascending (omega arith)).1)
      ∙ is_at-Ascending player_key id p.records v.ascending

  -- The branches of an insertion.
  abbrev pub Inserted :
      PlayerRegistry V → PlayerRecord V → Expected (Unit {0}) × PlayerRegistry V → Type 0
  Inserted p r (out, p') =
      ((r.id ≡ 0) ⊎ (p.size_limit ≤ length p.records) ⊎ (is_some (player p r.id) ≡ true))
        × (out ≡ err ErrorCode.invalid_argument)
        × (p' ≡ p)
      ⊎ (0 < r.id)
        × (length p.records < p.size_limit)
        × (player p r.id ≡ none)
        × (out ≡ ok tt)
        × IsValid p'
        × ((id : ℕ) → player p' id ≡ (if r.id == id then some r else player p id))

  insert_new :
      (p : PlayerRegistry V) (r : PlayerRecord V)
      → IsValid p
      → 0 < r.id
      → length p.records < p.size_limit
      → player p r.id ≡ none
      → let p' =
          rebuild_accelerators
            (record p { records = insert_at p.records (lower_bound_index p.records r.id) r }) in
        IsValid p' × ((id : ℕ) → player p' id ≡ (if r.id == id then some r else player p id))
  unfolding player rebuild_accelerators
  insert_new p r v positive room fresh =
      rw ((lower_bound_index_lem p.records r.id (length p.records + 1) v.ascending (omega arith)).1)
        (
          record {
            ascending = insert-Ascending player_key p.records r v.ascending fresh;
            bounded =
                omega (arith, length-insert_at p.records (lower_bound player_key p.records r.id) r);
            no_zero = ground (
              arith,
              lookup-insert_Ascending player_key 0 p.records r v.ascending fresh,
              v.no_zero,
            );
            indexed_id = refl;
            indexed_connection = refl;
            indexed_session = refl;
            indexed_entity = refl;
          },
          λ id. lookup-insert_Ascending player_key id p.records r v.ascending fresh,
        )

  -- Insertion into a valid registry on each branch: a record with id 0, a full registry and a present id
  -- are refused and leave the registry as it was; otherwise the registry stays valid and has the record
  -- under its id, and no other player changes.
  pub insert_lem :
      (p : PlayerRegistry V) (r : PlayerRecord V) → IsValid p → Inserted p r (insert p r)
  unfolding insert
  insert_lem p r v = elim (Bool-cases (r.id == 0)) [
    | inl e ↦ rw (insert, e) (inl (inl (ground (arith, e)), refl, refl))
    | inr e ↦ elim (Bool-cases (leb p.size_limit (length p.records))) [
      | inl f ↦ rw (insert, e, f) (inl (inr (inl (ground (arith, f))), refl, refl))
      | inr f ↦ elim (Option-cases (player p r.id)) [
        | inl h ↦
            let absent = stands_at-player p r.id v ∙ ap is_some h in
            let (v', lives) = insert_new p r v (ground (arith, e)) (ground (arith, f)) h in
            rw (insert, e, f, absent)
              (inr (ground (arith, e), ground (arith, f), h, refl, v', lives))
        | inr (c, h) ↦
            let present = stands_at-player p r.id v ∙ ap is_some h in
            rw (insert, e, f, present) (inl (inr (inr (ap is_some h)), refl, refl))
      ]
    ]
  ]

  RetireLaw : PlayerRegistry V → ℕ → PlayerRegistry V → Type 0
  RetireLaw p id p' = IsValid p' × ((j : ℕ) → player p' j ≡ (if id == j then none else player p j))

  retire_present :
      (p : PlayerRegistry V) (id : ℕ) {c : PlayerRecord V}
      → IsValid p
      → player p id ≡ some c
      → RetireLaw p id (
          rebuild_accelerators
            (record p { records = erase_at p.records (lower_bound_index p.records id) }))
  unfolding player rebuild_accelerators RetireLaw
  retire_present p id {c} v h =
      let at = lower_bound-index_of player_key id p.records v.ascending (ap is_some h) in
      rw ((lower_bound_index_lem p.records id (length p.records + 1) v.ascending (omega arith)).1) (
        record {
          ascending =
              erase-Ascending player_key (lower_bound player_key p.records id) p.records
                v.ascending;
          bounded = omega (
            arith,
            v.bounded,
            length-erase_at-le p.records (lower_bound player_key p.records id),
          );
          no_zero =
              ground
                (arith, lookup-erase_Ascending player_key id 0 p.records v.ascending at, v.no_zero);
          indexed_id = refl;
          indexed_connection = refl;
          indexed_session = refl;
          indexed_entity = refl;
        },
        λ j. lookup-erase_Ascending player_key id j p.records v.ascending at,
      )

  already_gone :
      (p : PlayerRegistry V) (id : ℕ)
      → player p id ≡ none
      → (j : ℕ) → player p j ≡ (if id == j then none else player p j)
  already_gone p id h j = elim (Bool-cases (id == j)) [
    | inl e ↦ rw e (ap (player p) (sym ((==_iff id j).0 e)) ∙ h)
    | inr e ↦ rw e
  ]

  no_player_zero : (p : PlayerRegistry V) → IsValid p → player p 0 ≡ none
  unfolding player
  no_player_zero p v = v.no_zero

  -- Retiring an id of a valid registry leaves it valid and without a player of that id, and changes no
  -- other player.
  pub retire_lem :
      (p : PlayerRegistry V) (id : ℕ)
      → IsValid p
      → let p' = retire p id in
        IsValid p' × ((j : ℕ) → player p' j ≡ (if id == j then none else player p j))
  unfolding retire RetireLaw
  retire_lem p id v = elim (Bool-cases (id == 0)) [
    | inl e ↦
        rw (retire, e)
          (v, λ j. already_gone p id (ap (player p) ((==_iff id 0).0 e) ∙ no_player_zero p v) j)
    | inr e ↦ elim (Option-cases (player p id)) [
      | inl h ↦
          rw (retire, e, stands_at-player p id v ∙ ap is_some h) (v, λ j. already_gone p id h j)
      | inr (c, h) ↦
          rw (retire, e, stands_at-player p id v ∙ ap is_some h) (retire_present p id {c = c} v h)
    ]
  ]

  abbrev pub step : PlayerRegistry V → Call V → PlayerRegistry V
  step p (inserts r) = (insert p r).1
  step p (retires id) = retire p id
  step p allocates = (allocate p).1

  abbrev pub run : PlayerRegistry V → List (Call V) → PlayerRegistry V
  run p [] = p
  run p (c ∷ cs) = run (step p c) cs

  Inserted-IsValid :
      (p : PlayerRegistry V) (r : PlayerRecord V) (x : Expected (Unit {0}) × PlayerRegistry V)
      → IsValid p
      → Inserted p r x
      → IsValid x.1
  Inserted-IsValid p r x v (inl (_, _, e)) = subst IsValid (sym e) v
  Inserted-IsValid p r x v (inr (_, _, _, _, v', _)) = v'

  step-IsValid : (p : PlayerRegistry V) (c : Call V) → IsValid p → IsValid (step p c)
  step-IsValid p (inserts r) v = Inserted-IsValid p r (insert p r) v (insert_lem p r v)
  step-IsValid p (retires id) v = (retire_lem p id v).0
  step-IsValid p allocates v = record {
    ascending = v.ascending;
    bounded = v.bounded;
    no_zero = v.no_zero;
    indexed_id = v.indexed_id;
    indexed_connection = v.indexed_connection;
    indexed_session = v.indexed_session;
    indexed_entity = v.indexed_entity;
  }

  pub run-IsValid : (p : PlayerRegistry V) (cs : List (Call V)) → IsValid p → IsValid (run p cs)
  run-IsValid p [] v = v
  run-IsValid p (c ∷ cs) v = run-IsValid (step p c) cs (step-IsValid p c v)

  -- After any history of insertions, retirements and allocations on a new registry the players are in
  -- ascending order of distinct ids, none has id 0, there are at most as many as the limit, and the four
  -- hash lookups agree with a search of the records: by id the player with that id, and by a connection,
  -- session member or entity other than 0 the last player that has it, by a key of 0 none.
  pub run-new_registry :
      (n : ℕ) (cs : List (Call V))
      → let p = run (new_registry n) cs in
        Ascending player_key p.records
        × (player p 0 ≡ none)
        × (length p.records ≤ p.size_limit)
        × Finds p
  unfolding player
  run-new_registry n cs =
      let p = run (new_registry n) cs in
      let v = run-IsValid (new_registry n) cs (new_registry-IsValid n) in
      (v.ascending, v.no_zero, v.bounded, IsValid-Finds p v)
