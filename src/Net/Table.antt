-- ===== src/Net/Table.antt =====
-- net/ConnectionTable.cpp: the host's connections in ascending id order.
pub mod Tests
pub mod Laws
pub mod Disconnect
pub mod Timeouts
use stalker_mp.Base.{
  ℕ, ◌+◌, ◌-◌, ◌/◌, ◌^◌, Bool, true, false, ◌&&◌, List, [], ◌∷◌, ◌++◌, map, Option, none, some,
  length, get_elem?, erase_at, set, keep, leb, ltb, ◌==◌, if◌then◌else◌, u32, ErrorCode, Expected,
  ok, err,
}
use stalker_mp.Keyed.{
  Index, find_index, emplace, find_entry, rebuild_accelerator, check_sorted, check_no_zero,
  check_accelerator,
}
use stalker_mp.Net.Types.{
  Connection, ConnectionState, HandshakeState, DisconnectReason, is_handshake_complete,
}

abbrev pub connection_key : Connection → ℕ
connection_key c = c.id

pub record ConnectionTable : Type 0 where
  pub max_connections : ℕ
  pub next_id : ℕ
  pub entries : List Connection
  pub index : Index

-- ms over the period, rounded up, at least 1; a period of 0 gives 1. The sum fits 64 bits.
unfoldable pub ticks_from_ms : ℕ → ℕ → ℕ
ticks_from_ms ms ms_per_tick =
    if ms_per_tick == 0
    then 1
    else let ticks = (ms + ms_per_tick - 1) / ms_per_tick in if ticks == 0 then 1 else ticks

unfoldable pub new : ℕ → ConnectionTable
new max = record { max_connections = max; next_id = 1; entries = []; index = [] }

-- `Connection c; c.id = id; c.endpoint = endpoint;`
abbrev pub fresh_connection : ℕ → ℕ → Connection
fresh_connection id endpoint = record {
  id = id;
  endpoint = endpoint;
  state = ConnectionState.disconnected;
  handshake = HandshakeState.initial;
  last_reason = DisconnectReason.unspecified;
  created_tick = 0;
  last_recv_tick = 0;
  last_send_tick = 0;
  established_tick = 0;
}

-- `++m_nextId` on a std::uint32_t wraps.
unfoldable pub add : ConnectionTable → ℕ → Expected ℕ × ConnectionTable
add t endpoint =
    if leb t.max_connections (length t.entries) then (err ErrorCode.invalid_argument, t) else (
      ok t.next_id,
      record t {
        next_id = u32 (t.next_id + 1);
        entries = t.entries ++ fresh_connection t.next_id endpoint ∷ [];
        index = emplace t.next_id (length t.entries) t.index;
      },
    )

unfoldable pub find : ConnectionTable → ℕ → Option Connection
find t id = find_entry connection_key t.entries t.index id

-- A write through the pointer of `FindMutable`; with no record there is no write.
unfoldable pub update : ConnectionTable → ℕ → (Connection → Connection) → ConnectionTable
update t id f = elim (find_index id t.index) [
  | none ↦ t
  | some i ↦ elim (get_elem? t.entries i) [
    | none ↦ t
    | some c ↦ record t { entries = set t.entries i (f c) }
  ]
]

unfoldable pub remove : ConnectionTable → ℕ → ConnectionTable
remove t id = elim (find_index id t.index) [
  | none ↦ t
  | some i ↦
      let entries = erase_at t.entries i in
      record t { entries = entries; index = rebuild_accelerator connection_key entries }
]

-- The branches of the loop of `ScanTimeouts` for one connection.
unfoldable pub is_timed_out : ℕ → ℕ → ℕ → Connection → Bool
is_timed_out now handshake_budget connection_budget c =
    if is_handshake_complete c.handshake
    then (elim c.state [
      | ConnectionState.connected ↦
          leb c.last_recv_tick now && ltb connection_budget (now - c.last_recv_tick)
      | _ ↦ false
    ])
    else (leb c.created_tick now && ltb handshake_budget (now - c.created_tick))

unfoldable pub scan_timeouts : ConnectionTable → ℕ → ℕ → ℕ → List ℕ
scan_timeouts t now handshake_budget connection_budget =
    map connection_key (keep (is_timed_out now handshake_budget connection_budget) t.entries)

pub record DisconnectIntent : Type 0 where
  pub performed : Bool
  pub id : ℕ
  pub endpoint : ℕ
  pub reason : DisconnectReason

abbrev pub no_intent : DisconnectIntent
no_intent = record {
  performed = false;
  id = 0;
  endpoint = 0;
  reason = DisconnectReason.unspecified;
}

unfoldable pub begin_disconnect :
    ConnectionTable → ℕ → DisconnectReason → DisconnectIntent × ConnectionTable
begin_disconnect t id reason = elim (find t id) [
  | none ↦ (no_intent, t)
  | some c ↦
      let t' =
        update t id
          (λ c. record c { state = ConnectionState.disconnecting; last_reason = reason }) in
      (record { performed = true; id = id; endpoint = c.endpoint; reason = reason }, remove t' id)
]

unfoldable pub ids : ConnectionTable → List ℕ
ids t = map connection_key t.entries

pub record ConnectionTableReport : Type 0 where
  pub sorted_unique : Bool
  pub accelerator_consistent : Bool
  pub within_capacity : Bool
  pub no_zero_id : Bool

abbrev pub is_healthy : ConnectionTableReport → Bool
is_healthy r = r.sorted_unique && r.accelerator_consistent && r.within_capacity && r.no_zero_id

unfoldable pub validate_consistency : ConnectionTable → ConnectionTableReport
validate_consistency t = record {
  sorted_unique = check_sorted connection_key t.entries;
  accelerator_consistent = check_accelerator connection_key t.entries t.index;
  within_capacity = leb (length t.entries) t.max_connections;
  no_zero_id = check_no_zero connection_key t.entries;
}
