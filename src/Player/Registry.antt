-- ===== src/Player/Registry.antt =====
-- player/PlayerRegistry.cpp: the players by ascending id, with four hash indexes into them. The hand-written
-- binary search runs while the range is not empty.
pub mod Laws
pub mod Search
pub mod History
pub mod Tests
use stalker_mp.Base.{
  ℕ, zero, suc, ◌+◌, ◌-◌, ◌/◌, Bool, true, false, not, ◌&&◌, ◌||◌, List, [], ◌∷◌, Option, none,
  some, length, get_elem?, insert_at, erase_at, ltb, leb, ◌==◌, if◌then◌else◌, u32, ErrorCode,
  Expected, ok, err,
}
use stalker_mp.Keyed.{Index, find_index}
use stalker_mp.Player.Types.{PlayerRecord, PlayerMappingView, player_key}

pub record PlayerRegistry (V : Type 0) : Type 0 where
  pub records : List (PlayerRecord V)
  pub size_limit : ℕ
  pub next_id : ℕ
  pub by_player_id : Index
  pub by_connection : Index
  pub by_session : Index
  pub by_entity : Index

-- `m_byConnection[key] = i`.
unfoldable pub store : ℕ → ℕ → Index → Index
store k i [] = (k, i) ∷ []
store k i ((j, n) ∷ m) = let rest = store k i m in if j == k then (k, i) ∷ m else (j, n) ∷ rest

module _ {V : Type 0} where
  abbrev pub new_registry : ℕ → PlayerRegistry V
  new_registry n = record {
    records = [];
    size_limit = n;
    next_id = 1;
    by_player_id = [];
    by_connection = [];
    by_session = [];
    by_entity = [];
  }

  abbrev pub make_view : PlayerRecord V → PlayerMappingView
  make_view r = record {
    id = r.id;
    connection = r.connection;
    session_member = r.session_member;
    entity = r.entity;
  }

  -- The loop with so many rounds, each with one test of its condition; `none` is a loop that has not ended,
  -- or a read behind the vector.
  unfoldable pub search : List (PlayerRecord V) → ℕ → ℕ → ℕ → ℕ → Option ℕ
  search xs id zero lo hi = none
  search xs id (suc n) lo hi =
      let mid = lo + (hi - lo) / 2 in
      let right = search xs id n (mid + 1) hi in
      let left = search xs id n lo mid in
      if ltb lo hi
      then elim (get_elem? xs mid) [ none ↦ none | some r ↦ if ltb r.id id then right else left ]
      else some lo

  -- As many rounds as there are records are enough, and one for the last test.
  unfoldable pub lower_bound_index : List (PlayerRecord V) → ℕ → ℕ
  unfolding search
  lower_bound_index xs id = elim (search xs id (length xs + 1) 0 (length xs)) [
    | none ↦ 0
    | some i ↦ i
  ]

  -- The loop that fills one index: with a key of 0 there is nothing to find, but for the player's own id.
  unfoldable pub fill : (PlayerRecord V → ℕ) → Bool → ℕ → List (PlayerRecord V) → Index → Index
  unfolding store
  fill key with_zero i [] m = m
  fill key with_zero i (r ∷ rs) m =
      fill key with_zero (i + 1) rs (if with_zero || not (key r == 0) then store (key r) i m else m)

  abbrev pub connection_key : PlayerRecord V → ℕ
  connection_key r = r.connection

  abbrev pub session_key : PlayerRecord V → ℕ
  session_key r = r.session_member

  abbrev pub own_entity_key : PlayerRecord V → ℕ
  own_entity_key r = r.entity

  unfoldable pub rebuild_accelerators : PlayerRegistry V → PlayerRegistry V
  unfolding fill
  rebuild_accelerators p = record p {
    by_player_id = fill player_key true 0 p.records [];
    by_connection = fill connection_key false 0 p.records [];
    by_session = fill session_key false 0 p.records [];
    by_entity = fill own_entity_key false 0 p.records [];
  }

  abbrev pub allocate : PlayerRegistry V → ℕ × PlayerRegistry V
  allocate p = (p.next_id, record p { next_id = u32 (p.next_id + 1) })

  -- `idx < m_records.size() && m_records[idx].id == id`.
  abbrev pub stands_at : List (PlayerRecord V) → ℕ → ℕ → Bool
  stands_at rs i id = elim (get_elem? rs i) [ none ↦ false | some r ↦ r.id == id ]

  unfoldable pub insert : PlayerRegistry V → PlayerRecord V → Expected (Unit {0}) × PlayerRegistry V
  unfolding lower_bound_index rebuild_accelerators
  insert p r =
      let i = lower_bound_index p.records r.id in
      if r.id == 0
      then (err ErrorCode.invalid_argument, p)
      else if leb p.size_limit (length p.records)
      then (err ErrorCode.invalid_argument, p)
      else if stands_at p.records i r.id
      then (err ErrorCode.invalid_argument, p)
      else (ok tt, rebuild_accelerators (record p { records = insert_at p.records i r }))

  unfoldable pub retire : PlayerRegistry V → ℕ → PlayerRegistry V
  unfolding lower_bound_index rebuild_accelerators
  retire p id =
      let i = lower_bound_index p.records id in
      if id == 0
      then p
      else if stands_at p.records i id
      then rebuild_accelerators (record p { records = erase_at p.records i })
      else p

  abbrev pub find_by : List (PlayerRecord V) → Index → ℕ → Option PlayerMappingView
  find_by rs m key = if key == 0 then none else elim (find_index key m) [
    | none ↦ none
    | some i ↦ elim (get_elem? rs i) [ none ↦ none | some r ↦ some (make_view r) ]
  ]

  unfoldable pub find_by_player_id : PlayerRegistry V → ℕ → Option PlayerMappingView
  find_by_player_id p id = find_by p.records p.by_player_id id

  unfoldable pub find_by_connection : PlayerRegistry V → ℕ → Option PlayerMappingView
  find_by_connection p connection = find_by p.records p.by_connection connection

  unfoldable pub find_by_session : PlayerRegistry V → ℕ → Option PlayerMappingView
  find_by_session p session_member = find_by p.records p.by_session session_member

  unfoldable pub find_by_entity : PlayerRegistry V → ℕ → Option PlayerMappingView
  find_by_entity p entity = find_by p.records p.by_entity entity
