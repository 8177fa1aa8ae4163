-- ===== src/Net/Handshake/Tests.antt =====
-- A handshake message on the wire, and a handshake that completes.
use stalker_mp.Net.Bytes.{ByteWriter}
use stalker_mp.Base.{◌+◌, ◌≡◌, replicate, ok, arith, ℕ, refl, Bool, true, List, [], ◌∷◌, some}
use stalker_mp.Net.Types.{
  Connection, HandshakeState, msg_hello, msg_response, ConnectionState, DisconnectReason,
}
use stalker_mp.Net.Handshake.{
  HandshakeMessage, server_nonce, advance, serialize_handshake, deserialize_handshake,
}
use stalker_mp.Net.Handshake.Laws.{
  Stepped, Completed, converse, advance_lem, converse-Completed, deserialize-serialize_handshake,
}

abbrev peer : Connection
peer = record {
  id = 1;
  endpoint = 40;
  state = ConnectionState.handshaking;
  handshake = HandshakeState.initial;
  last_reason = DisconnectReason.unspecified;
  created_tick = 0;
  last_recv_tick = 0;
  last_send_tick = 0;
  established_tick = 0;
}

abbrev let_in : Connection → ℕ → Bool
let_in c nonce = true

abbrev hello : HandshakeMessage
hello = record { id = msg_hello; version = 1; nonce = 0 }

abbrev response : HandshakeMessage
response = record { id = msg_response; version = 1; nonce = server_nonce 1 }

advance_lem_example :
    let authorize : Connection → ℕ → Bool = let_in in
    let c : Connection = peer in
    let m : HandshakeMessage = hello in
    Stepped authorize c c.handshake m (advance authorize c (some m))
advance_lem_example = advance_lem let_in peer hello

converse-Completed_example :
    let authorize : Connection → ℕ → Bool = let_in in
    let c : Connection = peer in
    let ms : List HandshakeMessage = hello ∷ response ∷ [] in Completed authorize c ms
unfolding converse advance
converse-Completed_example =
    converse-Completed let_in peer (record peer { handshake = HandshakeState.established })
      (hello ∷ response ∷ []) refl refl refl

deserialize-serialize_handshake_example :
    let m : HandshakeMessage = hello in
    let w : ByteWriter = record { buffer = replicate 6 0; position = 0 } in
    let (out, w') = serialize_handshake m w in
    (out ≡ ok tt)
    × (deserialize_handshake m.id (record { bytes = w'.buffer; offset = w.position })
        ≡ (ok m, record { bytes = w'.buffer; offset = w.position + 6 }))
deserialize-serialize_handshake_example =
    deserialize-serialize_handshake hello (record { buffer = replicate 6 0; position = 0 })
      (omega arith) (omega arith) (omega arith)
