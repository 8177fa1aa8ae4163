-- ===== src/Net/Reliability/Laws.antt =====
-- Sequence order, the window, and retransmission.
use stalker_mp.Base.{
  ℕ, zero, suc, ◌+◌, ◌-◌, ◌^◌, ◌≤◌, ◌<◌, ◌≡◌, ◌≢◌, refl, ◌↔◌, sym, ap, leb, if◌then◌else◌, true,
  false, List, [], ◌∷◌, ◌++◌, map, none, some, length, keep, All, arith, Bool-cases, inl, inr, u16,
  length-append,
}
use stalker_mp.Net.Reliability.{
  Reliability, InFlight, sequence_newer, register_send, process_ack, ack_packet, ack_bits_from,
  is_due, collect, collect_retransmits, clear, validate_consistency, ack_bit, acked_sequence,
}
use stalker_mp.Net.Reliability.Acks.{Distinct}

-- One 16-bit sequence number is newer than another exactly if it is 1 to 32767 steps ahead of it,
-- wrapping round; so of two numbers at most one is newer.
pub sequence_newer_lem :
    (a b : ℕ)
    → a < 2 ^ 16
    → b < 2 ^ 16
    → ((sequence_newer a b ≡ true) ↔ ((d : ℕ) × (0 < d) × (d < 2 ^ 15) × (a ≡ u16 (b + d))))
      × (sequence_newer a b ≡ true → sequence_newer b a ≡ false)
unfolding sequence_newer
sequence_newer_lem a b ha hb = (
  (
    (λ h. (u16 (a + 2 ^ 16 - b), ground arith, ground arith, ground arith)),
    (λ (d, pos, small, e). ground arith),
  ),
  (λ h. ground arith),
)

All-append :
    (P : InFlight → Type 0) (fs : List InFlight) (g : InFlight)
    → All P fs
    → P g
    → All P (fs ++ g ∷ [])
All-append P [] g a h = (h, tt)
All-append P (f ∷ fs) g a h = (a.0, All-append P fs g a.1 h)

-- A fresh sequence number at the end of the window.
Distinct-append :
    (fs : List InFlight) (g : InFlight)
    → All (λ f. f.sequence ≢ g.sequence) fs
    → Distinct fs
    → Distinct (fs ++ g ∷ [])
Distinct-append [] g a d = (tt, tt)
Distinct-append (f ∷ fs) g a d = (
  All-append (λ h. h.sequence ≢ f.sequence) fs g d.0 (λ e. a.0 (sym e)),
  Distinct-append fs g a.1 d.1,
)

register_send-full :
    (r : Reliability) (bytes : List ℕ) (tick : ℕ)
    → r.window ≤ length r.inflight
    → register_send r bytes tick ≡ (none, r)
unfolding register_send
register_send-full r bytes tick h = ground arith

register_send-sent :
    (r : Reliability) (bytes : List ℕ) (tick : ℕ)
    → length r.inflight < r.window
    → register_send r bytes tick ≡ (
      some r.next_sequence,
      record r {
        next_sequence = u16 (r.next_sequence + 1);
        inflight =
            r.inflight
            ++ record { sequence = r.next_sequence; send_tick = tick; bytes = bytes } ∷ [];
      },
    )
unfolding register_send
register_send-sent r bytes tick h = ground arith

-- Sending on each branch: with the window full it is refused and nothing changes; otherwise the packet
-- goes to the end of the window under the next number, which advances by one modulo 65536, and if no packet in
-- flight has that number, the numbers in flight stay distinct.
pub register_send_lem :
    (r : Reliability) (bytes : List ℕ) (tick : ℕ)
    → let (out, r') = register_send r bytes tick in
      (r.window ≤ length r.inflight → (out ≡ none) × (r' ≡ r))
      × (length r.inflight < r.window
          → (out ≡ some r.next_sequence)
            × (r'.next_sequence ≡ u16 (r.next_sequence + 1))
            × (r'.inflight
                ≡ r.inflight
                  ++ record { sequence = r.next_sequence; send_tick = tick; bytes = bytes } ∷ [])
            × (All (λ f. f.sequence ≢ r.next_sequence) r.inflight
                → Distinct r.inflight
                → Distinct r'.inflight))
register_send_lem r bytes tick = (
  λ full. rw (register_send-full r bytes tick full) (refl, refl),
  λ room.
      rw (register_send-sent r bytes tick room) (refl, refl, refl, Distinct-append r.inflight _),
)

-- The calls of the owner.
pub data Call : Type 0 where
  sends : List ℕ → ℕ → Call
  acks : ℕ → ℕ → Call
  collects : ℕ → Call
  clears : Call

unfoldable pub step : Reliability → Call → Reliability
step r (sends bytes tick) = (register_send r bytes tick).1
step r (acks ack ack_bits) = process_ack r ack ack_bits
step r (collects now) = (collect_retransmits r now).1
step r clears = clear r

abbrev Fits : Reliability → Type 0
Fits r = length r.inflight ≤ r.window

length-ack_packet : (s : ℕ) (fs : List InFlight) → length (ack_packet s fs) ≤ length fs
unfolding ack_packet
length-ack_packet s [] = omega arith
length-ack_packet s (f ∷ fs) = ground (arith, length-ack_packet s fs)

length-ack_bits_from :
    (rounds i ack bits : ℕ) (fs : List InFlight)
    → length (ack_bits_from rounds i ack bits fs) ≤ length fs
unfolding ack_bits_from
length-ack_bits_from zero i ack bits fs = omega arith
length-ack_bits_from (suc rounds) i ack bits fs = elim (Bool-cases (ack_bit bits i)) [
  | inl e ↦ rw e (
      omega (
        arith,
        length-ack_bits_from rounds (i + 1) ack bits (ack_packet (acked_sequence ack i) fs),
        length-ack_packet (acked_sequence ack i) fs,
      ))
  | inr e ↦ rw e (length-ack_bits_from rounds (i + 1) ack bits fs)
]

length-collect :
    (now interval : ℕ) (fs : List InFlight) → length (collect now interval fs).1 ≡ length fs
unfolding collect
length-collect now interval [] = refl
length-collect now interval (f ∷ fs) = ground (arith, length-collect now interval fs)

register_send-Fits :
    (r : Reliability) (bytes : List ℕ) (tick : ℕ)
    → Fits r
    → Fits (register_send r bytes tick).1 × ((register_send r bytes tick).1.window ≡ r.window)
unfolding register_send
register_send-Fits r bytes tick h = ground (
  arith,
  length-append r.inflight
      (record { sequence = r.next_sequence; send_tick = tick; bytes = bytes } ∷ []),
)

step-Fits : (r : Reliability) (c : Call) → Fits r → Fits (step r c) × ((step r c).window ≡ r.window)
unfolding step
step-Fits r (sends bytes tick) h = register_send-Fits r bytes tick h
step-Fits r (acks ack bits) h =
    unfold process_ack in
    (
      omega (
        arith,
        length-ack_bits_from 32 0 ack bits (ack_packet ack r.inflight),
        length-ack_packet ack r.inflight,
      ),
      refl,
    )
step-Fits r (collects now) h =
    unfold collect_retransmits in (omega (arith, length-collect now r.interval r.inflight), refl)
step-Fits r clears h = unfold clear in (omega arith, refl)

unfoldable pub run : Reliability → List Call → Reliability
run r [] = r
run r (c ∷ cs) = run (step r c) cs

-- From a window that is not overfull, no sequence of calls puts more packets in flight than the window holds.
pub run_in_window :
    (r : Reliability) (cs : List Call)
    → length r.inflight ≤ r.window
    → (validate_consistency (run r cs) ≡ true) × (length (run r cs).inflight ≤ r.window)
unfolding run validate_consistency
run_in_window r [] h = (ground arith, h)
run_in_window r (c ∷ cs) h = ground (arith, step-Fits r c h, run_in_window (step r c) cs)

collect-out :
    (now interval : ℕ) (fs : List InFlight)
    → (collect now interval fs).0
      ≡ map (λ f. (f.sequence, f.bytes)) (keep (λ f. leb (f.send_tick + interval) now) fs)
unfolding collect is_due
collect-out now interval [] = refl
collect-out now interval (f ∷ fs) = ground (arith, collect-out now interval fs)

abbrev pub packets : List InFlight → List (ℕ × List ℕ)
packets = map (λ f. (f.sequence, f.bytes))

-- A packet that was sent at least an interval ago counts as sent now.
abbrev pub restarted : ℕ → ℕ → InFlight → InFlight
restarted now interval f =
    if leb (f.send_tick + interval) now then record f { send_tick = now } else f

collect-restarted :
    (now interval : ℕ) (fs : List InFlight)
    → (collect now interval fs).1 ≡ map (restarted now interval) fs
unfolding collect is_due
collect-restarted now interval [] = refl
collect-restarted now interval (f ∷ fs) = ground (arith, collect-restarted now interval fs)

collect-rested :
    (now interval : ℕ) (fs : List InFlight)
    → 0 < interval
    → (collect now interval (collect now interval fs).1).0 ≡ []
unfolding collect is_due
collect-rested now interval [] h = refl
collect-rested now interval (f ∷ fs) h = ground (arith, collect-rested now interval fs h)

-- Collecting gives exactly the packets that were sent at least an interval ago, in send order. Every packet
-- stays in flight, in place, those that were given with the tick as their new time of sending and the
-- others unchanged; with a positive interval a second collection at that tick gives nothing.
pub collect_retransmits_lem :
    (r : Reliability) (now : ℕ)
    → let (out, r') = collect_retransmits r now in
      (out ≡ packets (keep (λ f. leb (f.send_tick + r.interval) now) r.inflight))
      × (r' ≡ record r { inflight = map (restarted now r.interval) r.inflight })
      × (0 < r.interval → (collect_retransmits r' now).0 ≡ [])
unfolding collect_retransmits
collect_retransmits_lem r now = (
  collect-out now r.interval r.inflight,
  ap (λ fs. record r { inflight = fs }) (collect-restarted now r.interval r.inflight),
  collect-rested now r.interval r.inflight,
)
