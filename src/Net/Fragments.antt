-- ===== src/Net/Fragments.antt =====
-- net/Fragmentation.cpp: payloads in fragments, and their reassembly. The unordered_map of reassemblies is an
-- association list with one entry for a key; its order is not relied on. What `Accept` writes to `out`
-- comes with the result `completed`.
pub mod Laws
pub mod Store
pub mod Pruning
pub mod Header
pub mod Tests
pub mod Split
pub mod Parts
use Prim.Native.Nat.{bit_or}
use stalker_mp.Base.{
  ℕ, zero, suc, ◌+◌, ◌-◌, ◌*◌, ◌/◌, ◌^◌, Bool, true, false, ◌&&◌, not, List, [], ◌∷◌, ◌++◌, Option,
  none, some, length, get_elem?, set, take, drop, replicate, leb, ltb, ◌==◌, if◌then◌else◌, u16,
  u64, min, ErrorCode,
}
use stalker_mp.Base.State.{Op, ◌>>=◌, ◌>>◌, return}
use stalker_mp.Net.Bytes.{ByteWriter, ByteReader, write_u16, read_u16}

pub record Fragment : Type 0 where
  pub message_id : ℕ
  pub index : ℕ
  pub count : ℕ
  pub bytes : List ℕ

unfoldable pub serialize_fragment_header : Fragment → Op ByteWriter ErrorCode (Unit {0})
serialize_fragment_header f = do write_u16 f.message_id; write_u16 f.index; write_u16 f.count

unfoldable pub deserialize_fragment_header : Op ByteReader ErrorCode Fragment
deserialize_fragment_header = do
  message_id ← read_u16
  index ← read_u16
  count ← read_u16
  return (record { message_id = message_id; index = index; count = count; bytes = [] })

pub data AcceptResult : Type 0 where
  incomplete : AcceptResult
  completed : ℕ → List ℕ → AcceptResult
  rejected : AcceptResult

pub record Reassembly : Type 0 where
  pub count : ℕ
  pub first_tick : ℕ
  pub have : ℕ
  pub parts : List (Option (List ℕ))

pub record Fragmentation : Type 0 where
  pub max_fragment_payload : ℕ
  pub budget_ticks : ℕ
  pub dropped_incomplete : ℕ
  pub pending : List (ℕ × Reassembly)

unfoldable pub new : ℕ → ℕ → Fragmentation
new max budget = record {
  max_fragment_payload = if max == 0 then 1 else max;
  budget_ticks = budget;
  dropped_incomplete = 0;
  pending = [];
}

-- The bytes from `begin` up to `end`, where there are any.
abbrev pub fragment_bytes : ℕ → List ℕ → ℕ → List ℕ
fragment_bytes max payload i =
    let begin = i * max in
    let end = min (begin + max) (length payload) in
    if ltb begin end then take (end - begin) (drop begin payload) else []

-- The loop over the fragments from i on; `rounds` are left.
unfoldable pub split_from : ℕ → ℕ → ℕ → ℕ → ℕ → List ℕ → List Fragment
split_from zero i count max message_id payload = []
split_from (suc rounds) i count max message_id payload =
    record {
      message_id = message_id;
      index = u16 i;
      count = u16 count;
      bytes = fragment_bytes max payload i;
    }
    ∷ split_from rounds (i + 1) count max message_id payload

abbrev pub fragment_count : ℕ → ℕ → ℕ
fragment_count max total = if total == 0 then 1 else (total + max - 1) / max

unfoldable pub split : Fragmentation → ℕ → List ℕ → List Fragment
unfolding split_from
split f message_id payload =
    let count = fragment_count f.max_fragment_payload (length payload) in
    split_from count 0 count f.max_fragment_payload message_id payload

abbrev pub pending_key : ℕ → ℕ → ℕ
pending_key connection message_id = bit_or (connection * 2 ^ 16) message_id

abbrev pub find_pending : ℕ → List (ℕ × Reassembly) → Option Reassembly
find_pending key [] = none
find_pending key ((k, r) ∷ m) = if k == key then some r else find_pending key m

-- The reassembly of a key put in place, or at the end of the list.
unfoldable pub put_pending : ℕ → Reassembly → List (ℕ × Reassembly) → List (ℕ × Reassembly)
put_pending key r [] = (key, r) ∷ []
put_pending key r ((k, s) ∷ m) = if k == key then (k, r) ∷ m else (k, s) ∷ put_pending key r m

unfoldable pub erase_pending : ℕ → List (ℕ × Reassembly) → List (ℕ × Reassembly)
erase_pending key [] = []
erase_pending key ((k, s) ∷ m) = if k == key then m else (k, s) ∷ erase_pending key m

-- The copy of all parts, one after the other.
unfoldable pub join_parts : List (Option (List ℕ)) → List ℕ
join_parts [] = []
join_parts (none ∷ ps) = join_parts ps
join_parts (some bytes ∷ ps) = bytes ++ join_parts ps

-- An absent part is filled; a fragment that is there already is ignored.
unfoldable pub store_part : Reassembly → Fragment → Reassembly
store_part r f = elim (get_elem? r.parts f.index) [
  | none ↦ r
  | some slot ↦ elim slot [
    | none ↦ record r { parts = set r.parts f.index (some f.bytes); have = r.have + 1 }
    | some bytes ↦ r
  ]
]

-- The test for completion, after the fragment is stored.
unfoldable pub finish : Fragmentation → ℕ → ℕ → Reassembly → AcceptResult × Fragmentation
unfolding join_parts put_pending erase_pending
finish t key message_id r =
    if r.have == r.count
    then (
      completed message_id (join_parts r.parts),
      record t { pending = erase_pending key t.pending },
    )
    else (incomplete, record t { pending = put_pending key r t.pending })

abbrev pub fresh_reassembly : ℕ → ℕ → Reassembly
fresh_reassembly count tick = record {
  count = count;
  first_tick = tick;
  have = 0;
  parts = replicate count none;
}

unfoldable pub accept : Fragmentation → ℕ → Fragment → ℕ → AcceptResult × Fragmentation
unfolding finish store_part
accept t connection f tick =
    let key = pending_key connection f.message_id in
    if f.count == 0
    then (rejected, t)
    else if leb f.count f.index
    then (rejected, t)
    else elim (find_pending key t.pending) [
      | none ↦ finish t key f.message_id (store_part (fresh_reassembly f.count tick) f)
      | some r ↦
          (if r.count == f.count then finish t key f.message_id (store_part r f) else (rejected, t))
    ]

unfoldable pub is_expired : ℕ → ℕ → Reassembly → Bool
is_expired tick budget r = leb r.first_tick tick && ltb budget (tick - r.first_tick)

-- The reassemblies that stay, and how many go.
unfoldable pub prune_from : ℕ → ℕ → List (ℕ × Reassembly) → ℕ × List (ℕ × Reassembly)
prune_from tick budget [] = (0, [])
prune_from tick budget ((k, r) ∷ m) =
    let (dropped, rest) = prune_from tick budget m in
    if is_expired tick budget r then (dropped + 1, rest) else (dropped, (k, r) ∷ rest)

unfoldable pub prune_expired : Fragmentation → ℕ → ℕ × Fragmentation
unfolding prune_from
prune_expired t tick =
    let (dropped, rest) = prune_from tick t.budget_ticks t.pending in
    (
      dropped,
      record t { pending = rest; dropped_incomplete = u64 (t.dropped_incomplete + dropped) },
    )

unfoldable pub clear : Fragmentation → Fragmentation
clear t = record t { pending = [] }

unfoldable pub none_expired : ℕ → ℕ → List (ℕ × Reassembly) → Bool
none_expired tick budget [] = true
none_expired tick budget ((k, r) ∷ m) = not (is_expired tick budget r) && none_expired tick budget m

unfoldable pub validate_consistency : Fragmentation → ℕ → Bool
unfolding none_expired
validate_consistency t tick = none_expired tick t.budget_ticks t.pending
