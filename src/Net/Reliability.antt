-- ===== src/Net/Reliability.antt =====
-- net/Reliability.cpp and net/Reliability.h: sequence numbers, the in-flight window, acknowledgements and
-- retransmission. Sequence numbers are 16-bit and wrap; `x - y` on them adds the modulus first.
pub mod Tests
pub mod Laws
pub mod Acks
use Prim.Native.Nat.{bit_and}
use stalker_mp.Base.{
  ℕ, zero, suc, ◌+◌, ◌-◌, ◌^◌, Bool, true, false, ◌&&◌, not, List, [], ◌∷◌, ◌++◌, Option, none,
  some, length, leb, ltb, ◌==◌, if◌then◌else◌, u16,
}

unfoldable pub sequence_newer : ℕ → ℕ → Bool
sequence_newer a b = let diff = u16 (a + 2 ^ 16 - b) in if diff == 0 then false else ltb diff 0x8000

pub record UnreliableReceiver : Type 0 where
  pub last : ℕ
  pub has_last : Bool

unfoldable pub accept : UnreliableReceiver → ℕ → Bool × UnreliableReceiver
accept r sequence =
    if (if r.has_last then sequence_newer sequence r.last else true)
    then (true, record { last = sequence; has_last = true })
    else (false, r)

unfoldable pub reset : UnreliableReceiver → UnreliableReceiver
reset r = record { last = 0; has_last = false }

pub record InFlight : Type 0 where
  pub sequence : ℕ
  pub send_tick : ℕ
  pub bytes : List ℕ

pub record Reliability : Type 0 where
  pub next_sequence : ℕ
  pub window : ℕ
  pub interval : ℕ
  pub inflight : List InFlight

-- The sequence that `outSequence` is set to; `none` is WindowFull.
unfoldable pub register_send : Reliability → List ℕ → ℕ → Option ℕ × Reliability
register_send r bytes tick = if leb r.window (length r.inflight) then (none, r) else (
  some r.next_sequence,
  record r {
    next_sequence = u16 (r.next_sequence + 1);
    inflight =
        r.inflight ++ record { sequence = r.next_sequence; send_tick = tick; bytes = bytes } ∷ [];
  },
)

-- `find_if` and `erase`: the first packet with the sequence goes.
unfoldable pub ack_packet : ℕ → List InFlight → List InFlight
ack_packet sequence [] = []
ack_packet sequence (f ∷ fs) = if f.sequence == sequence then fs else f ∷ ack_packet sequence fs

-- `(ackBits & (1u << i)) != 0`, and the sequence that the bit stands for.
abbrev pub ack_bit : ℕ → ℕ → Bool
ack_bit ack_bits i = not (bit_and ack_bits (2 ^ i) == 0)

abbrev pub acked_sequence : ℕ → ℕ → ℕ
acked_sequence ack i = u16 (ack + 2 ^ 16 - 1 - i)

-- The loop over the `rounds` bits from bit i on.
unfoldable pub ack_bits_from : ℕ → ℕ → ℕ → ℕ → List InFlight → List InFlight
unfolding ack_packet
ack_bits_from zero i ack ack_bits fs = fs
ack_bits_from (suc rounds) i ack ack_bits fs =
    ack_bits_from rounds (i + 1) ack ack_bits
      (if ack_bit ack_bits i then ack_packet (acked_sequence ack i) fs else fs)

unfoldable pub process_ack : Reliability → ℕ → ℕ → Reliability
process_ack r ack ack_bits = record r {
  inflight = ack_bits_from 32 0 ack ack_bits (ack_packet ack r.inflight);
}

-- The retransmission test of one packet.
unfoldable pub is_due : ℕ → ℕ → InFlight → Bool
is_due now interval f = leb f.send_tick now && leb interval (now - f.send_tick)

-- The packets to send again, and the window with their timers restarted.
unfoldable pub collect : ℕ → ℕ → List InFlight → List (ℕ × List ℕ) × List InFlight
collect now interval [] = ([], [])
collect now interval (f ∷ fs) =
    let (out, rest) = collect now interval fs in
    if is_due now interval f
    then ((f.sequence, f.bytes) ∷ out, record f { send_tick = now } ∷ rest)
    else (out, f ∷ rest)

unfoldable pub collect_retransmits : Reliability → ℕ → List (ℕ × List ℕ) × Reliability
collect_retransmits r now =
    let (out, fs) = collect now r.interval r.inflight in (out, record r { inflight = fs })

unfoldable pub clear : Reliability → Reliability
clear r = record r { inflight = [] }

unfoldable pub validate_consistency : Reliability → Bool
validate_consistency r = leb (length r.inflight) r.window
