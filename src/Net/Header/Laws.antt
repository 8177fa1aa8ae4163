-- ===== src/Net/Header/Laws.antt =====
-- The header codec: the round trip, short buffers, and what a valid header is.
use Prim.Native.Nat.{bit_and}
use stalker_mp.Base.{
  ℕ, ◌+◌, ◌≤◌, ◌<◌, ◌^◌, ◌≡◌, refl, ◌↔◌, List, [], ◌∷◌, ◌++◌, length, arith, ltb, ◌==◌, Bool, true,
  false, not, ErrorCode, Result, ok, err,
}
use stalker_mp.Base.Bits.{all_below_sound}
use stalker_mp.Base.State.{Op}
use stalker_mp.Net.Types.{protocol_magic, protocol_version}
use stalker_mp.Net.Bytes.{ByteWriter, ByteReader, read_u8, read_u16, read_u32}
use stalker_mp.Net.Bytes.Laws.{le16, le32, write_u8_fits, write_u16_fits, write_u32_fits}
use stalker_mp.Net.Bytes.Codec.{
  Writes, then-Writes, Reads, bind-Reads, Holds-after, read_u8-Reads, read_u16-Reads,
  read_u32-Reads,
}
use stalker_mp.Net.Header.{
  PacketHeader, HeaderError, reserved_flags_mask, validate_semantics, serialize_header,
  deserialize_header, packet_header_wire_size, or_truncated, checked,
}

-- The ranges of the C++ field types.
pub record InRange (h : PacketHeader) : Type 0 where
  pub magic : h.magic < 2 ^ 16
  pub protocol_version : h.protocol_version < 2 ^ 16
  pub channel : h.channel < 2 ^ 8
  pub flags : h.flags < 2 ^ 8
  pub sequence : h.sequence < 2 ^ 16
  pub ack : h.ack < 2 ^ 16
  pub ack_bits : h.ack_bits < 2 ^ 32
  pub message_id : h.message_id < 2 ^ 16
  pub payload_length : h.payload_length < 2 ^ 16

-- The wire form, from each field on.
abbrev from_payload_length : PacketHeader → List ℕ
from_payload_length h = le16 h.payload_length ++ []

abbrev from_message_id : PacketHeader → List ℕ
from_message_id h = le16 h.message_id ++ from_payload_length h

abbrev from_ack_bits : PacketHeader → List ℕ
from_ack_bits h = le32 h.ack_bits ++ from_message_id h

abbrev from_ack : PacketHeader → List ℕ
from_ack h = le16 h.ack ++ from_ack_bits h

abbrev from_sequence : PacketHeader → List ℕ
from_sequence h = le16 h.sequence ++ from_ack h

abbrev from_flags : PacketHeader → List ℕ
from_flags h = h.flags ∷ from_sequence h

abbrev from_channel : PacketHeader → List ℕ
from_channel h = h.channel ∷ from_flags h

abbrev from_version : PacketHeader → List ℕ
from_version h = le16 h.protocol_version ++ from_channel h

abbrev pub header_bytes : PacketHeader → List ℕ
header_bytes h = le16 h.magic ++ from_version h

serialize-Writes : (h : PacketHeader) → Writes (serialize_header h) (header_bytes h)
unfolding serialize_header
serialize-Writes h = then-Writes _ _ (le16 h.magic) _ (write_u16_fits h.magic) (
    then-Writes _ _ (le16 h.protocol_version) _ (write_u16_fits h.protocol_version) (
      then-Writes _ _ (h.channel ∷ []) _ (write_u8_fits h.channel) (
        then-Writes _ _ (h.flags ∷ []) _ (write_u8_fits h.flags) (
          then-Writes _ _ (le16 h.sequence) _ (write_u16_fits h.sequence) (
            then-Writes _ _ (le16 h.ack) _ (write_u16_fits h.ack) (
              then-Writes _ _ (le32 h.ack_bits) _ (write_u32_fits h.ack_bits) (
                then-Writes _ _ (le16 h.message_id) _ (write_u16_fits h.message_id)
                  (write_u16_fits h.payload_length))))))))

abbrev same : Bool → Bool → Bool
same true b = b
same false b = not b

Bool-eq : (a b : Bool) → same a b ≡ true → a ≡ b
Bool-eq a b h = ground arith

reserved_table : (f : ℕ) → f < 2 ^ 8 → (bit_and f reserved_flags_mask == 0) ≡ ltb f 8
reserved_table f h =
    Bool-eq _ _
      (all_below_sound 256 (λ f. same (bit_and f reserved_flags_mask == 0) (ltb f 8)) f refl h)

-- What the code accepts: the protocol's magic and version, a channel that exists, no reserved flag.
pub record IsWellFormed (h : PacketHeader) : Type 0 where
  pub magic : h.magic ≡ protocol_magic
  pub version : h.protocol_version ≡ protocol_version
  pub channel : h.channel ≤ 1
  pub flags : h.flags < 8

-- The result of `DeserializeHeader` on the wire form of a header.
abbrev pub validated : PacketHeader → Result HeaderError PacketHeader
validated h = elim (validate_semantics h) [ ok u ↦ ok h | err e ↦ err e ]

validated_iff : (h : PacketHeader) → h.flags < 2 ^ 8 → (validated h ≡ ok h) ↔ IsWellFormed h
unfolding validate_semantics
validated_iff h r = (
  (λ e. ground (arith, reserved_table h.flags r)),
  (λ v. ground (arith, reserved_table h.flags r)),
)

truncating-Reads :
    (op : Op ByteReader ErrorCode ℕ) (bs : List ℕ) (v : ℕ)
    → Reads op bs (ok v)
    → Reads (or_truncated op) bs (ok v)
truncating-Reads op bs v f r h = rw (f r h)

u16_field : (v : ℕ) → v < 2 ^ 16 → Reads (or_truncated read_u16) (le16 v) (ok v)
u16_field v h = truncating-Reads read_u16 (le16 v) v (read_u16-Reads v h)

u8_field : (v : ℕ) → Reads (or_truncated read_u8) (v ∷ []) (ok v)
u8_field v = truncating-Reads read_u8 (v ∷ []) v (read_u8-Reads v)

checked-Reads : (h : PacketHeader) → Reads (checked h) [] (validated h)
checked-Reads h r k = ground arith

deserialize-Reads :
    (h : PacketHeader) → InRange h → Reads deserialize_header (header_bytes h) (validated h)
unfolding deserialize_header
deserialize-Reads h v =
    bind-Reads _ _ h.magic _ (le16 h.magic) (from_version h) (u16_field h.magic v.magic) (
      bind-Reads _ _ h.protocol_version _ (le16 h.protocol_version) (from_channel h)
        (u16_field h.protocol_version v.protocol_version)
        (bind-Reads _ _ h.channel _ (h.channel ∷ []) (from_flags h) (u8_field h.channel) (
          bind-Reads _ _ h.flags _ (h.flags ∷ []) (from_sequence h) (u8_field h.flags) (
            bind-Reads _ _ h.sequence _ (le16 h.sequence) (from_ack h)
              (u16_field h.sequence v.sequence)
              (bind-Reads _ _ h.ack _ (le16 h.ack) (from_ack_bits h) (u16_field h.ack v.ack) (
                bind-Reads _ _ h.ack_bits _ (le32 h.ack_bits) (from_message_id h)
                  (truncating-Reads read_u32 (le32 h.ack_bits) h.ack_bits
                    (read_u32-Reads h.ack_bits v.ack_bits))
                  (bind-Reads _ _ h.message_id _ (le16 h.message_id) (from_payload_length h)
                    (u16_field h.message_id v.message_id)
                    (bind-Reads _ _ h.payload_length _ (le16 h.payload_length) []
                      (u16_field h.payload_length v.payload_length) (checked-Reads h)))))))))

-- For a header whose fields are in the ranges of their types: reading it back where it was written with
-- room gives exactly that header if it is well formed, and its error otherwise; the reader stands behind
-- the 18 bytes. A header is accepted exactly if it is well formed.
pub deserialize-serialize :
    (h : PacketHeader) (w : ByteWriter)
    → InRange h
    → w.position + packet_header_wire_size ≤ length w.buffer
    → let (out, w') = serialize_header h w in
      (out ≡ ok tt)
      × (w'.position ≡ w.position + packet_header_wire_size)
      × (deserialize_header (record { bytes = w'.buffer; offset = w.position }) ≡ (
        validated h,
        record { bytes = w'.buffer; offset = w.position + packet_header_wire_size },
      ))
      × ((validated h ≡ ok h) ↔ IsWellFormed h)
deserialize-serialize h w v fits = rw (serialize-Writes h w fits) (
  refl,
  refl,
  deserialize-Reads h v _ (Holds-after w (header_bytes h) fits),
  validated_iff h v.flags,
)
