-- ===== src/Net/Types.antt =====
-- net/NetTypes.h, net/ProtocolConstants.h, net/Connection.h. Ids are the numbers that they wrap.
use stalker_mp.Base.{ℕ, Bool, true, false, leb}

pub data Channel : Type 0 where
  reliable unreliable : Channel

pub data HandshakeState : Type 0 where
  initial hello_sent challenge_sent response_sent established : HandshakeState

pub data ConnectionState : Type 0 where
  disconnected connecting handshaking connected disconnecting : ConnectionState

pub data DisconnectReason : Type 0 where
  unspecified timeout graceful rejected protocol_error capacity_full transport_error :
      DisconnectReason

abbrev pub protocol_magic : ℕ
protocol_magic = 0x5350

abbrev pub protocol_version : ℕ
protocol_version = 1

abbrev pub msg_hello : ℕ
msg_hello = 1

abbrev pub msg_challenge : ℕ
msg_challenge = 2

abbrev pub msg_response : ℕ
msg_response = 3

abbrev pub msg_established : ℕ
msg_established = 4

abbrev pub msg_ping : ℕ
msg_ping = 5

abbrev pub msg_pong : ℕ
msg_pong = 6

abbrev pub msg_bye : ℕ
msg_bye = 7

abbrev pub is_control_id : ℕ → Bool
is_control_id id = leb id 0xff

abbrev pub is_data_id : ℕ → Bool
is_data_id id = leb 0x100 id

-- The reserved fields (player slot, reconnect token, the three handles, the two sequence numbers)
-- are never read or written by the layer and are left out.
pub record Connection : Type 0 where
  pub id : ℕ
  pub endpoint : ℕ
  pub state : ConnectionState
  pub handshake : HandshakeState
  pub last_reason : DisconnectReason
  pub created_tick : ℕ
  pub last_recv_tick : ℕ
  pub last_send_tick : ℕ
  pub established_tick : ℕ

abbrev pub is_handshake_complete : HandshakeState → Bool
is_handshake_complete HandshakeState.established = true
is_handshake_complete _ = false
