-- ===== src/Player/Registry/Laws.antt =====
-- The indexes of player/PlayerRegistry.cpp against searches of the records, and its two mutations.
use stalker_mp.Base.{
  ℕ, ◌+◌, ◌≤◌, ◌≡◌, refl, inl, inr, Bool, true, false, not, ◌||◌, List, [], ◌∷◌, Option, none, some,
  is_some, length, get_elem?, ◌==◌, if◌then◌else◌, Bool-cases, arith,
}
use stalker_mp.Keyed.{Index, find_index}
use stalker_mp.Keyed.Laws.{Ascending, Above-Ascending, lookup, lookup_below}
use stalker_mp.Player.Types.{PlayerRecord, PlayerMappingView, player_key}
use stalker_mp.Player.Registry.{
  PlayerRegistry, new_registry, make_view, store, fill, connection_key, session_key, own_entity_key,
  find_by, find_by_player_id, find_by_connection, find_by_session, find_by_entity,
}

find_index-store :
    (v k i : ℕ) (m : Index)
    → find_index v (store k i m) ≡ (if k == v then some i else find_index v m)
unfolding store
find_index-store v k i [] = refl
find_index-store v k i ((j, n) ∷ m) = ground (arith, find_index-store v k i m)

module _ {V : Type 0} where
  abbrev pub view_of : Option (PlayerRecord V) → Option PlayerMappingView
  view_of none = none
  view_of (some r) = some (make_view r)

module _ {V : Type 0} (key : PlayerRecord V → ℕ) where
  -- The last record with a key, and its position.
  unfoldable pub last_with : List (PlayerRecord V) → ℕ → Option (PlayerRecord V)
  last_with [] v = none
  last_with (r ∷ rs) v = elim (last_with rs v) [
    | none ↦ if key r == v then some r else none
    | some s ↦ some s
  ]

  last_index : ℕ → List (PlayerRecord V) → ℕ → Option ℕ
  last_index i [] v = none
  last_index i (r ∷ rs) v = elim (last_index (i + 1) rs v) [
    | none ↦ if key r == v then some i else none
    | some j ↦ some j
  ]

  find_index-fill :
      (with_zero : Bool) (v i : ℕ) (rs : List (PlayerRecord V)) (m : Index)
      → (with_zero || not (v == 0)) ≡ true
      → find_index v (fill key with_zero i rs m)
        ≡ elim (last_index i rs v) [ none ↦ find_index v m | some w ↦ some w ]
  unfolding fill last_index
  find_index-fill z v i [] m h = refl
  find_index-fill z v i (r ∷ rs) m h =
      let next = if z || not (key r == 0) then store (key r) i m else m in
      ground (arith, h, find_index-fill z v (i + 1) rs next h, find_index-store v (key r) i m)

  last_index-shift :
      (i v : ℕ) (rs : List (PlayerRecord V))
      → last_index (i + 1) rs v ≡ elim (last_index i rs v) [ none ↦ none | some j ↦ some (j + 1) ]
  unfolding last_index
  last_index-shift i v [] = refl
  last_index-shift i v (r ∷ rs) = ground (arith, last_index-shift (i + 1) v rs)

  is_some-last_index :
      (i v : ℕ) (rs : List (PlayerRecord V))
      → is_some (last_index i rs v) ≡ is_some (last_with rs v)
  unfolding last_index last_with
  is_some-last_index i v [] = refl
  is_some-last_index i v (r ∷ rs) = ground (arith, is_some-last_index (i + 1) v rs)

  get_elem?-last_index :
      (v : ℕ) (rs : List (PlayerRecord V))
      → elim (last_index 0 rs v) [ none ↦ none | some i ↦ get_elem? rs i ] ≡ last_with rs v
  unfolding last_index last_with
  get_elem?-last_index v [] = refl
  get_elem?-last_index v (r ∷ rs) =
      ground (arith, last_index-shift 0 v rs, is_some-last_index 0 v rs, get_elem?-last_index v rs)

  find_by-fill :
      (with_zero : Bool) (rs : List (PlayerRecord V)) (v : ℕ)
      → find_by rs (fill key with_zero 0 rs []) v
        ≡ (if v == 0 then none else view_of (last_with rs v))
  find_by-fill z rs v = elim (Bool-cases (v == 0)) [
    | inl e ↦ rw e refl
    | inr e ↦
        ground
          (arith, e, find_index-fill z v 0 rs [] (ground (arith, e)), get_elem?-last_index v rs)
  ]

module _ {V : Type 0} where
  pub record IsValid (p : PlayerRegistry V) : Type 0 where
    pub ascending : Ascending player_key p.records
    pub bounded : length p.records ≤ p.size_limit
    pub no_zero : lookup player_key p.records 0 ≡ none
    pub indexed_id : p.by_player_id ≡ fill player_key true 0 p.records []
    pub indexed_connection : p.by_connection ≡ fill connection_key false 0 p.records []
    pub indexed_session : p.by_session ≡ fill session_key false 0 p.records []
    pub indexed_entity : p.by_entity ≡ fill own_entity_key false 0 p.records []

  -- The player with an id.
  unfoldable pub player : PlayerRegistry V → ℕ → Option (PlayerRecord V)
  player p id = lookup player_key p.records id

  pub new_registry-IsValid : (n : ℕ) → IsValid (new_registry n)
  unfolding fill lookup
  new_registry-IsValid n = record {
    ascending = tt;
    bounded = omega arith;
    no_zero = refl;
    indexed_id = refl;
    indexed_connection = refl;
    indexed_session = refl;
    indexed_entity = refl;
  }

  last_with-Ascending :
      (rs : List (PlayerRecord V)) (v : ℕ)
      → Ascending player_key rs
      → last_with player_key rs v ≡ lookup player_key rs v
  unfolding last_with lookup
  last_with-Ascending [] v a = refl
  last_with-Ascending (r ∷ rs) v a = ground (
    arith,
    last_with-Ascending rs v (Above-Ascending player_key r.id rs a),
    lookup_below player_key r.id v rs a,
  )

  -- What the four lookups give, in terms of the records: the player with the id; for another key that is
  -- not 0, the last player that has it.
  unfoldable pub Finds : PlayerRegistry V → Type 0
  Finds p =
      ((id : ℕ) → find_by_player_id p id ≡ view_of (player p id))
      × ((k : ℕ)
          → find_by_connection p k
            ≡ (if k == 0 then none else view_of (last_with connection_key p.records k)))
      × ((k : ℕ)
          → find_by_session p k
            ≡ (if k == 0 then none else view_of (last_with session_key p.records k)))
      × ((k : ℕ)
          → find_by_entity p k
            ≡ (if k == 0 then none else view_of (last_with own_entity_key p.records k)))

  pub IsValid-Finds : (p : PlayerRegistry V) → IsValid p → Finds p
  unfolding Finds find_by_player_id find_by_connection find_by_session find_by_entity player
  IsValid-Finds p v = (
    λ id. ground (
      arith,
      v.indexed_id,
      v.no_zero,
      find_by-fill player_key true p.records id,
      last_with-Ascending p.records id v.ascending,
    ),
    λ k. rw v.indexed_connection (find_by-fill connection_key false p.records k),
    λ k. rw v.indexed_session (find_by-fill session_key false p.records k),
    λ k. rw v.indexed_entity (find_by-fill own_entity_key false p.records k),
  )
