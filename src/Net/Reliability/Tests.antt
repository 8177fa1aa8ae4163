-- ===== src/Net/Reliability/Tests.antt =====
-- A window with three packets in flight, and what the theorems say of it.
use stalker_mp.Net.Reliability.Laws.{
  Call, packets, restarted, run, sends, acks, collects, run_in_window, sequence_newer_lem,
  collect_retransmits_lem,
}
use stalker_mp.Base.{
  ℕ, ◌+◌, ◌^◌, ◌≤◌, ◌<◌, ◌≡◌, ◌↔◌, true, false, not, List, [], ◌∷◌, length, keep, leb, map, arith,
  u16,
}
use stalker_mp.Net.Reliability.{
  Reliability, process_ack, sequence_newer, collect_retransmits, validate_consistency,
}
use stalker_mp.Net.Reliability.Acks.{Distinct, IsNamed, is_acked, process_ack_lem}

abbrev three_packets : Reliability
three_packets = record {
  next_sequence = 2;
  window = 4;
  interval = 5;
  inflight =
      record { sequence = 65535; send_tick = 1; bytes = 10 ∷ [] }
      ∷ record { sequence = 0; send_tick = 2; bytes = 11 ∷ [] }
      ∷ record { sequence = 1; send_tick = 6; bytes = [] }
      ∷ [];
}

three_packets-Distinct : Distinct three_packets.inflight
three_packets-Distinct =
    (((λ e. omega arith), ((λ e. omega arith), tt)), (((λ e. omega arith), tt), (tt, tt)))

process_ack_lem_example :
    let r : Reliability = three_packets in
    let ack : ℕ = 0 in
    let ack_bits : ℕ = 1 in
    let s : ℕ = 65535 in
    ((process_ack r ack ack_bits).inflight
      ≡ keep (λ f. not (is_acked ack ack_bits f.sequence)) r.inflight)
    × Distinct (process_ack r ack ack_bits).inflight
    × ((is_acked ack ack_bits s ≡ true) ↔ IsNamed ack ack_bits s)
process_ack_lem_example =
    process_ack_lem three_packets 0 1 65535 three_packets-Distinct (omega arith) (omega arith)

sequence_newer_lem_example :
    let a : ℕ = 1 in
    let b : ℕ = 65535 in
    ((sequence_newer a b ≡ true) ↔ ((d : ℕ) × (0 < d) × (d < 2 ^ 15) × (a ≡ u16 (b + d))))
    × (sequence_newer a b ≡ true → sequence_newer b a ≡ false)
sequence_newer_lem_example = sequence_newer_lem 1 65535 (omega arith) (omega arith)

run_in_window_example :
    let r : Reliability = three_packets in
    let cs : List Call = sends (3 ∷ []) 8 ∷ sends [] 8 ∷ acks 0 1 ∷ collects 20 ∷ [] in
    (validate_consistency (run r cs) ≡ true) × (length (run r cs).inflight ≤ r.window)
run_in_window_example =
    run_in_window three_packets (sends (3 ∷ []) 8 ∷ sends [] 8 ∷ acks 0 1 ∷ collects 20 ∷ [])
      (omega arith)

collect_retransmits_lem_example :
    let r : Reliability = three_packets in
    let now : ℕ = 7 in
    let (out, r') = collect_retransmits r now in
    (out ≡ packets (keep (λ f. leb (f.send_tick + r.interval) now) r.inflight))
    × (r' ≡ record r { inflight = map (restarted now r.interval) r.inflight })
    × (0 < r.interval → (collect_retransmits r' now).0 ≡ [])
collect_retransmits_lem_example = collect_retransmits_lem three_packets 7
