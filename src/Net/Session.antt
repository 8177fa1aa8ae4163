-- ===== src/Net/Session.antt =====
-- net/Session.cpp: the members of the session and the observers that it tells. A pointer to an
-- observer is a number, 0 the null pointer; what an operation tells is its list of notices.
pub mod Tests
pub mod Laws
pub mod History
use Prim.Native.Nat.{bit_xor}
use stalker_mp.Base.{
  ℕ, ◌+◌, ◌*◌, ◌^◌, Bool, true, false, ◌&&◌, List, [], ◌∷◌, ◌++◌, map, Option, none, some, length,
  get_elem?, insert_at, erase_at, leb, ltb, ◌==◌, if◌then◌else◌, not, is_some, u64, ErrorCode,
  Expected, ok, err,
}
use stalker_mp.Keyed.{
  Index, find_index, lower_bound, is_at, rebuild_accelerator, check_sorted, check_no_zero,
  check_accelerator,
}
use stalker_mp.Net.Types.{DisconnectReason}

pub record Member : Type 0 where
  pub id : ℕ
  pub join_tick : ℕ

abbrev pub member_key : Member → ℕ
member_key m = m.id

pub data Notice : Type 0 where
  joined : ℕ → ℕ → ℕ → Notice  -- observer, connection, tick
  left_session : ℕ → ℕ → DisconnectReason → ℕ → Notice  -- observer, connection, reason, token

pub record Session : Type 0 where
  pub max_members : ℕ
  pub members : List Member
  pub index : Index
  pub observers : List ℕ

unfoldable pub new : ℕ → Session
new max = record { max_members = max; members = []; index = []; observers = [] }

unfoldable pub subscribe : Session → ℕ → Session
subscribe s observer =
    if observer == 0 then s else record s { observers = s.observers ++ observer ∷ [] }

-- The insertion at `pos` of an absent member, the rebuilt index, and OnMemberJoined in turn.
insert_member : Session → Member → Expected (Unit {0}) × Session × List Notice
insert_member s m =
    let members = insert_at s.members (lower_bound member_key s.members m.id) m in
    (
      ok tt,
      record s { members = members; index = rebuild_accelerator member_key members },
      map (λ o. joined o m.id m.join_tick) s.observers,
    )

unfoldable pub admit : Session → ℕ → ℕ → Expected (Unit {0}) × Session × List Notice
unfolding insert_member
admit s id join_tick =
    if leb s.max_members (length s.members)
    then (err ErrorCode.invalid_argument, s, [])
    else if is_at member_key s.members (lower_bound member_key s.members id) id
    then (err ErrorCode.already_exists, s, [])
    else insert_member s (record { id = id; join_tick = join_tick })

-- `t ^= 0x5350AA55A55A5350` of the connection id above the hashed tick; never 0.
unfoldable pub mint_token : ℕ → ℕ → ℕ
mint_token id join_tick =
    let t =
      bit_xor (bit_xor (u64 (id * 2 ^ 32)) (u64 (join_tick * 2654435761))) 0x5350aa55a55a5350 in
    if t == 0 then 1 else t

remove_at : Session → ℕ → ℕ → DisconnectReason → Option Member → Session × List Notice
unfolding mint_token
remove_at s i id reason none = (s, [])
remove_at s i id reason (some m) =
    let members = erase_at s.members i in
    (
      record s { members = members; index = rebuild_accelerator member_key members },
      map (λ o. left_session o id reason (mint_token m.id m.join_tick)) s.observers,
    )

-- An index past the vector (`none` in `remove_at`) cannot occur in a healthy session.
unfoldable pub remove : Session → ℕ → DisconnectReason → Session × List Notice
unfolding remove_at
remove s id reason = elim (find_index id s.index) [
  | none ↦ (s, [])
  | some i ↦ remove_at s i id reason (get_elem? s.members i)
]

unfoldable pub try_reclaim : Session → ℕ → Expected ℕ
try_reclaim s token = err ErrorCode.not_found

unfoldable pub contains : Session → ℕ → Bool
contains s id = is_some (find_index id s.index)

pub record SessionReport : Type 0 where
  pub sorted_unique : Bool
  pub accelerator_consistent : Bool
  pub within_capacity : Bool
  pub no_zero_id : Bool

abbrev pub is_healthy : SessionReport → Bool
is_healthy r = r.sorted_unique && r.accelerator_consistent && r.within_capacity && r.no_zero_id

unfoldable pub validate_consistency : Session → SessionReport
validate_consistency s = record {
  sorted_unique = check_sorted member_key s.members;
  accelerator_consistent = check_accelerator member_key s.members s.index;
  within_capacity = leb (length s.members) s.max_members;
  no_zero_id = check_no_zero member_key s.members;
}
