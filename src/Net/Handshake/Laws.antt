-- ===== src/Net/Handshake/Laws.antt =====
-- Which peers get through the handshake.
use stalker_mp.Base.{
  ℕ, ◌+◌, ◌<◌, ◌^◌, ◌≤◌, ◌≡◌, ◌≢◌, refl, ◌⊎◌, inl, inr, Bool, true, false, List, [], ◌∷◌, ◌++◌,
  length, Option, none, some, arith, ErrorCode, ok,
}
use stalker_mp.Base.State.{return}
use stalker_mp.Net.Types.{
  Connection, HandshakeState, DisconnectReason, protocol_version, msg_hello, msg_challenge,
  msg_response, msg_established,
}
use stalker_mp.Net.Bytes.{ByteWriter}
use stalker_mp.Net.Bytes.Laws.{le16, le32, write_u16_fits, write_u32_fits}
use stalker_mp.Net.Bytes.Codec.{
  Writes, then-Writes, Reads, bind-Reads, Holds-after, read_u16-Reads, read_u32-Reads,
}
use stalker_mp.Net.Handshake.{
  HandshakeMessage, HandshakeResult, server_nonce, advance, advance_message, serialize_handshake,
  deserialize_handshake,
}

-- A Hello of this protocol version.
abbrev pub IsHello : HandshakeMessage → Type 0
IsHello m = (m.id ≡ msg_hello) × (m.version ≡ protocol_version)

-- A Response that echoes the nonce of the connection and that the authenticator lets in.
abbrev pub IsResponse : (Connection → ℕ → Bool) → Connection → HandshakeMessage → Type 0
IsResponse authorize c m =
    (m.id ≡ msg_response) × (m.nonce ≡ server_nonce c.id) × (authorize c m.nonce ≡ true)

-- A control message that is no handshake message.
abbrev pub IsOtherControl : HandshakeMessage → Type 0
IsOtherControl m =
    (m.id ≤ 0xff)
    × (m.id ≢ msg_hello)
    × (m.id ≢ msg_challenge)
    × (m.id ≢ msg_response)
    × (m.id ≢ msg_established)

-- A Response with the nonce of the connection that the authenticator denies.
abbrev pub IsDenied : (Connection → ℕ → Bool) → Connection → HandshakeMessage → Type 0
IsDenied authorize c m =
    (m.id ≡ msg_response) × (m.nonce ≡ server_nonce c.id) × (authorize c m.nonce ≡ false)

-- The result that sends nothing and goes nowhere.
abbrev pub stuck : Connection → Option DisconnectReason → HandshakeResult
stuck c reason = record {
  state = c.handshake;
  outbound = none;
  drop_reason = reason;
  advanced = false;
}

-- What a message is told that does not take the handshake on.
abbrev pub Refused :
    (Connection → ℕ → Bool)
    → Connection
    → HandshakeState
    → HandshakeMessage
    → HandshakeResult
    → Type 0
Refused authorize c s m out =
    IsOtherControl m × (out ≡ stuck c none)
    ⊎ (s ≡ HandshakeState.challenge_sent)
      × IsDenied authorize c m
      × (out ≡ stuck c (some DisconnectReason.rejected))
    ⊎ (¬ IsOtherControl m)
      × (¬ ((s ≡ HandshakeState.challenge_sent) × IsDenied authorize c m))
      × (out ≡ stuck c (some DisconnectReason.protocol_error))

-- What one message does to a connection in a state: it starts the handshake, or finishes it, or leaves
-- the connection as it was, with the answer that `Refused` gives.
abbrev pub Stepped :
    (Connection → ℕ → Bool)
    → Connection
    → HandshakeState
    → HandshakeMessage
    → HandshakeResult × Connection
    → Type 0
Stepped authorize c s m (out, c') =
    (s ≡ HandshakeState.initial)
      × IsHello m
      × (c' ≡ record c { handshake = HandshakeState.challenge_sent })
      × (out.outbound ≡ some (record { id = msg_challenge; nonce = server_nonce c.id }))
      × (out.drop_reason ≡ none)
      × (out.state ≡ HandshakeState.challenge_sent)
      × (out.advanced ≡ true)
    ⊎ (s ≡ HandshakeState.challenge_sent)
      × IsResponse authorize c m
      × (c' ≡ record c { handshake = HandshakeState.established })
      × (out.outbound ≡ some (record { id = msg_established; nonce = 0 }))
      × (out.drop_reason ≡ none)
      × (out.state ≡ HandshakeState.established)
      × (out.advanced ≡ true)
    ⊎ (¬ ((s ≡ HandshakeState.initial) × IsHello m))
      × (¬ ((s ≡ HandshakeState.challenge_sent) × IsResponse authorize c m))
      × (c' ≡ c)
      × Refused authorize c s m out

advance_message-Stepped :
    (authorize : Connection → ℕ → Bool) (c : Connection) (s : HandshakeState) (m : HandshakeMessage)
    → Stepped authorize c s m (advance_message authorize c s m)
unfolding advance_message
advance_message-Stepped authorize c HandshakeState.initial m = ground arith
advance_message-Stepped authorize c HandshakeState.challenge_sent m = ground arith
advance_message-Stepped authorize c _ m = ground arith

-- One step of the handshake on the host, complete: in the initial state a Hello of this version, and no
-- other message, starts it; in the challenged state a Response with the nonce and the authenticator's consent,
-- and no other message, finishes it. Any other message leaves the record of the connection as it was and sends
-- nothing: a control message that is no handshake message is ignored, a Response with the nonce that
-- the authenticator denies drops the peer as rejected, and everything else drops it for a protocol error.
pub advance_lem :
    (authorize : Connection → ℕ → Bool) (c : Connection) (m : HandshakeMessage)
    → Stepped authorize c c.handshake m (advance authorize c (some m))
unfolding advance
advance_lem authorize c m = advance_message-Stepped authorize c c.handshake m

-- The messages of a connection in turn, until one drops it.
unfoldable pub converse :
    (Connection → ℕ → Bool) → Connection → List HandshakeMessage → Option Connection
converse authorize c [] = some c
converse authorize c (m ∷ ms) =
    let (out, c') = advance authorize c (some m) in
    let rest = converse authorize c' ms in elim out.drop_reason [ none ↦ rest | some reason ↦ none ]

-- Some message answers the challenge; some message is a Hello and a later one answers the challenge.
abbrev pub Answered : (Connection → ℕ → Bool) → Connection → List HandshakeMessage → Type 0
Answered authorize c [] = ⊥
Answered authorize c (m ∷ ms) = IsResponse authorize c m ⊎ Answered authorize c ms

abbrev pub Completed : (Connection → ℕ → Bool) → Connection → List HandshakeMessage → Type 0
Completed authorize c [] = ⊥
Completed authorize c (m ∷ ms) =
    IsHello m × Answered authorize (record c { handshake = HandshakeState.challenge_sent }) ms
    ⊎ Completed authorize c ms

converse-Answered :
    (authorize : Connection → ℕ → Bool) (c c' : Connection) (ms : List HandshakeMessage)
    → c.handshake ≡ HandshakeState.challenge_sent
    → converse authorize c ms ≡ some c'
    → c'.handshake ≡ HandshakeState.established
    → Answered authorize c ms
unfolding converse
converse-Answered authorize c c' [] s h e = ground arith
converse-Answered authorize c c' (m ∷ ms) s h e = elim (advance_lem authorize c m) [
  | inl (at, _, _, _, _, _, _) ↦ absurd (ground arith)
  | inr (inl (at, r, _, _, _, _, _)) ↦ inl r
  | inr (inr (_, _, same, _)) ↦ inr (converse-Answered authorize c c' ms s (later same) e)
]
  where
    later : (advance authorize c (some m)).1 ≡ c → converse authorize c ms ≡ some c'
    later same = ground arith

-- A connection that starts in the initial state is established only by a Hello of this version and a
-- later Response that echoes its nonce and is authorized.
pub converse-Completed :
    (authorize : Connection → ℕ → Bool) (c c' : Connection) (ms : List HandshakeMessage)
    → c.handshake ≡ HandshakeState.initial
    → converse authorize c ms ≡ some c'
    → c'.handshake ≡ HandshakeState.established
    → Completed authorize c ms
unfolding converse
converse-Completed authorize c c' [] s h e = ground arith
converse-Completed authorize c c' (m ∷ ms) s h e = elim (advance_lem authorize c m) [
  | inl (at, hello, next, _, _, _, _) ↦
      inl (hello, converse-Answered authorize _ c' ms refl (begun next) e)
  | inr (inl (at, _, _, _, _, _, _)) ↦ absurd (ground arith)
  | inr (inr (_, _, same, _)) ↦ inr (converse-Completed authorize c c' ms s (later same) e)
]
  where
    begun :
        (advance authorize c (some m)).1 ≡ record c { handshake = HandshakeState.challenge_sent }
        → converse authorize (record c { handshake = HandshakeState.challenge_sent }) ms ≡ some c'
    begun next = ground arith

    later : (advance authorize c (some m)).1 ≡ c → converse authorize c ms ≡ some c'
    later same = ground arith

serialize-Writes :
    (m : HandshakeMessage) → Writes (serialize_handshake m) (le16 m.version ++ le32 m.nonce)
unfolding serialize_handshake
serialize-Writes m =
    then-Writes _ _ (le16 m.version) (le32 m.nonce) (write_u16_fits m.version)
      (write_u32_fits m.nonce)

return-Reads : {A : Type 0} (a : A) → Reads {E = ErrorCode} (return a) [] (ok a)
return-Reads a r h = ground arith

-- Reading back a handshake message that was written where there was room gives that message, under the
-- id that the header carries.
pub deserialize-serialize_handshake :
    (m : HandshakeMessage) (w : ByteWriter)
    → m.version < 2 ^ 16
    → m.nonce < 2 ^ 32
    → w.position + 6 ≤ length w.buffer
    → let (out, w') = serialize_handshake m w in
      (out ≡ ok tt)
      × (deserialize_handshake m.id (record { bytes = w'.buffer; offset = w.position })
          ≡ (ok m, record { bytes = w'.buffer; offset = w.position + 6 }))
unfolding deserialize_handshake
deserialize-serialize_handshake m w hv hn fits = rw (serialize-Writes m w fits) (
  refl,
  bind-Reads _ _ m.version _ (le16 m.version) (le32 m.nonce ++ []) (read_u16-Reads m.version hv)
      (bind-Reads _ _ m.nonce _ (le32 m.nonce) [] (read_u32-Reads m.nonce hn) (return-Reads m)) _
      (Holds-after w (le16 m.version ++ le32 m.nonce) fits),
)
