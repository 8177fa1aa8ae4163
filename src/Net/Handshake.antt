-- ===== src/Net/Handshake.antt =====
-- net/Handshake.cpp and net/Handshake.h: the host's side of the handshake, one message a tick.
pub mod Tests
pub mod Laws
use Prim.Native.Nat.{bit_xor, bit_or}
use stalker_mp.Base.{
  ℕ, ◌+◌, ◌*◌, ◌/◌, ◌^◌, Bool, true, false, ◌&&◌, ◌||◌, not, Option, none, some, ◌==◌,
  if◌then◌else◌, u32, ErrorCode,
}
use stalker_mp.Base.State.{Op, ◌>>=◌, ◌>>◌, return}
use stalker_mp.Net.Types.{
  Connection, HandshakeState, DisconnectReason, protocol_version, msg_hello, msg_challenge,
  msg_response, msg_established, is_control_id,
}
use stalker_mp.Net.Bytes.{ByteWriter, ByteReader, write_u16, write_u32, read_u16, read_u32}

pub record HandshakeMessage : Type 0 where
  pub id : ℕ
  pub version : ℕ
  pub nonce : ℕ

pub record OutboundControl : Type 0 where
  pub id : ℕ
  pub nonce : ℕ

pub record HandshakeResult : Type 0 where
  pub state : HandshakeState
  pub outbound : Option OutboundControl
  pub drop_reason : Option DisconnectReason
  pub advanced : Bool

-- A multiplicative hash of the id, mixed and rotated by 13 bits; never 0.
unfoldable pub server_nonce : ℕ → ℕ
server_nonce id =
    let x = bit_xor (u32 (id * 2654435761)) 0x5350aa55 in
    let y = bit_or (u32 (x * 2 ^ 13)) (x / 2 ^ 19) in if y == 0 then 1 else y

unfoldable pub serialize_handshake : HandshakeMessage → Op ByteWriter ErrorCode (Unit {0})
serialize_handshake m = do write_u16 m.version; write_u32 m.nonce

unfoldable pub deserialize_handshake : ℕ → Op ByteReader ErrorCode HandshakeMessage
deserialize_handshake id = do
  version ← read_u16
  nonce ← read_u32
  return (record { id = id; version = version; nonce = nonce })

abbrev pub is_handshake_id : ℕ → Bool
is_handshake_id id =
    id == msg_hello || id == msg_challenge || id == msg_response || id == msg_established

abbrev pub is_ignorable_during_handshake : ℕ → Bool
is_ignorable_during_handshake id = is_control_id id && not (is_handshake_id id)

abbrev pub no_change : Connection → HandshakeResult
no_change c = record { state = c.handshake; outbound = none; drop_reason = none; advanced = false }

abbrev pub drop_connection : Connection → DisconnectReason → HandshakeResult
drop_connection c reason = record {
  state = c.handshake;
  outbound = none;
  drop_reason = some reason;
  advanced = false;
}

-- The result that goes to a new state with a message to send, and the connection in that state.
abbrev pub go_to : Connection → HandshakeState → ℕ → ℕ → HandshakeResult × Connection
go_to c state id nonce = (
  record {
    state = state;
    outbound = some (record { id = id; nonce = nonce });
    drop_reason = none;
    advanced = true;
  },
  record c { handshake = state },
)

-- What every state does with a message that it does not expect.
abbrev pub unexpected : Connection → ℕ → HandshakeResult × Connection
unexpected c id =
    if is_ignorable_during_handshake id
    then (no_change c, c)
    else (drop_connection c DisconnectReason.protocol_error, c)

-- `authorize c nonce` is the authenticator's decision: true unless it is Deny.
unfoldable pub advance_message :
    (Connection → ℕ → Bool)
    → Connection
    → HandshakeState
    → HandshakeMessage
    → HandshakeResult × Connection
unfolding server_nonce
advance_message authorize c HandshakeState.initial m =
    if m.id == msg_hello
    then if m.version == protocol_version
      then go_to c HandshakeState.challenge_sent msg_challenge (server_nonce c.id)
      else (drop_connection c DisconnectReason.protocol_error, c)
    else unexpected c m.id
advance_message authorize c HandshakeState.challenge_sent m =
    if m.id == msg_response
    then if m.nonce == server_nonce c.id
      then if authorize c m.nonce
        then go_to c HandshakeState.established msg_established 0
        else (drop_connection c DisconnectReason.rejected, c)
      else (drop_connection c DisconnectReason.protocol_error, c)
    else unexpected c m.id
advance_message authorize c _ m = unexpected c m.id

unfoldable pub advance :
    (Connection → ℕ → Bool) → Connection → Option HandshakeMessage → HandshakeResult × Connection
unfolding advance_message
advance authorize c none = (no_change c, c)
advance authorize c (some m) = advance_message authorize c c.handshake m
