-- ===== src/Net/Header/Tests.antt =====
-- A header on the wire, and a short buffer.
use stalker_mp.Base.{◌+◌, ◌≡◌, ◌↔◌, replicate, arith, ok}
use stalker_mp.Net.Types.{protocol_magic, protocol_version}
use stalker_mp.Net.Bytes.{ByteWriter}
use stalker_mp.Net.Header.{
  PacketHeader, serialize_header, deserialize_header, packet_header_wire_size,
}
use stalker_mp.Net.Header.Laws.{InRange, IsWellFormed, validated, deserialize-serialize}

abbrev ack_header : PacketHeader
ack_header = record {
  magic = protocol_magic;
  protocol_version = protocol_version;
  channel = 0;
  flags = 2;
  sequence = 65535;
  ack = 513;
  ack_bits = 0x80000001;
  message_id = 4;
  payload_length = 300;
}

ack_header_range : InRange ack_header
ack_header_range = record {
  magic = omega arith;
  protocol_version = omega arith;
  channel = omega arith;
  flags = omega arith;
  sequence = omega arith;
  ack = omega arith;
  ack_bits = omega arith;
  message_id = omega arith;
  payload_length = omega arith;
}

abbrev room : ByteWriter
room = record { buffer = replicate 20 0; position = 2 }

deserialize-serialize_example :
    let h : PacketHeader = ack_header in
    let w : ByteWriter = room in
    let (out, w') = serialize_header h w in
    (out ≡ ok tt)
    × (w'.position ≡ w.position + packet_header_wire_size)
    × (deserialize_header (record { bytes = w'.buffer; offset = w.position }) ≡ (
      validated h,
      record { bytes = w'.buffer; offset = w.position + packet_header_wire_size },
    ))
    × ((validated h ≡ ok h) ↔ IsWellFormed h)
deserialize-serialize_example = deserialize-serialize ack_header room ack_header_range (omega arith)
