-- ===== src/Net/Header.antt =====
-- net/PacketHeader.cpp: the fixed wire header, field by field. The HeaderError that `HeaderErr` puts
-- into the message of an InvalidArgument error is the error here.
pub mod Tests
pub mod Laws
pub mod Short
use Prim.Native.Nat.{bit_and}
use stalker_mp.Base.{
  ℕ, ◌+◌, ◌<◌, ◌^◌, Bool, true, false, ◌&&◌, ltb, ◌==◌, if◌then◌else◌, ErrorCode, Result, ok, err,
}
use stalker_mp.Base.State.{Op, ◌>>=◌, ◌>>◌, return, map_errors}
use stalker_mp.Net.Types.{protocol_magic, protocol_version}
use stalker_mp.Net.Bytes.{
  ByteWriter, ByteReader, write_u8, write_u16, write_u32, read_u8, read_u16, read_u32,
}

pub record PacketHeader : Type 0 where
  pub magic : ℕ
  pub protocol_version : ℕ
  pub channel : ℕ
  pub flags : ℕ
  pub sequence : ℕ
  pub ack : ℕ
  pub ack_bits : ℕ
  pub message_id : ℕ
  pub payload_length : ℕ

abbrev pub packet_header_wire_size : ℕ
packet_header_wire_size = 18

-- `static_cast<std::uint8_t>(~kDefinedFlagsMask)`: all flags but fragment, ack and control.
abbrev pub reserved_flags_mask : ℕ
reserved_flags_mask = 0xf8

pub data HeaderError : Type 0 where
  truncated bad_magic version_mismatch bad_channel reserved_flag bad_length : HeaderError

unfoldable pub validate_semantics : PacketHeader → Result HeaderError (Unit {0})
validate_semantics h =
    if h.magic == protocol_magic
    then if h.protocol_version == protocol_version
      then if (if h.channel == 0 then true else h.channel == 1)
        then if bit_and h.flags reserved_flags_mask == 0
          then ok tt
          else err HeaderError.reserved_flag
        else err HeaderError.bad_channel
      else err HeaderError.version_mismatch
    else err HeaderError.bad_magic

unfoldable pub serialize_header : PacketHeader → Op ByteWriter ErrorCode (Unit {0})
serialize_header h = do
  write_u16 h.magic
  write_u16 h.protocol_version
  write_u8 h.channel
  write_u8 h.flags
  write_u16 h.sequence
  write_u16 h.ack
  write_u32 h.ack_bits
  write_u16 h.message_id
  write_u16 h.payload_length

-- A field that the reader cannot give is a truncated header.
abbrev pub or_truncated : Op ByteReader ErrorCode ℕ → Op ByteReader HeaderError ℕ
or_truncated read r = map_errors (λ e. HeaderError.truncated) (read r)

abbrev pub checked : PacketHeader → Op ByteReader HeaderError PacketHeader
checked h r = elim (validate_semantics h) [ ok u ↦ (ok h, r) | err e ↦ (err e, r) ]

unfoldable pub deserialize_header : Op ByteReader HeaderError PacketHeader
deserialize_header = do
  magic ← or_truncated read_u16
  version ← or_truncated read_u16
  channel ← or_truncated read_u8
  flags ← or_truncated read_u8
  sequence ← or_truncated read_u16
  ack ← or_truncated read_u16
  ack_bits ← or_truncated read_u32
  message_id ← or_truncated read_u16
  payload_length ← or_truncated read_u16
  checked (record {
    magic = magic;
    protocol_version = version;
    channel = channel;
    flags = flags;
    sequence = sequence;
    ack = ack;
    ack_bits = ack_bits;
    message_id = message_id;
    payload_length = payload_length;
  })

unfoldable pub validate_header : PacketHeader → ℕ → Result HeaderError (Unit {0})
unfolding validate_semantics
validate_header h available = elim (validate_semantics h) [
  | err e ↦ err e
  | ok u ↦ if ltb available h.payload_length then err HeaderError.bad_length else ok tt
]
