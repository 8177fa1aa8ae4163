-- ===== src/Net/Reliability/Acks.antt =====
-- What an acknowledgement removes from the window.
use stalker_mp.Base.{
  ℕ, zero, suc, ◌+◌, ◌^◌, ◌≤◌, ◌<◌, ◌⊎◌, ◌↔◌, u16, ltb, ◌≡◌, ◌≢◌, refl, subst, ◌∙◌, ap, sym, Bool,
  true, false, ◌&&◌, ◌||◌, not, List, [], ◌∷◌, keep, All, ◌==◌, ==_iff, arith, Bool-cases, inl, inr,
}
use stalker_mp.Base.Bits.{binary_digit, bit_and-power}
use stalker_mp.Net.Reliability.{
  Reliability, InFlight, ack_packet, ack_bit, acked_sequence, ack_bits_from, process_ack,
}

-- No two packets in flight have one sequence number.
abbrev pub Distinct : List InFlight → Type 0
Distinct [] = Unit
Distinct (f ∷ fs) = All (λ g. g.sequence ≢ f.sequence) fs × Distinct fs

-- The sequences that the code acknowledges, as a test.
abbrev pub bit_acks : ℕ → ℕ → ℕ → ℕ → ℕ → Bool
bit_acks zero i ack ack_bits s = false
bit_acks (suc rounds) i ack ack_bits s =
    (ack_bit ack_bits i && acked_sequence ack i == s) || bit_acks rounds (i + 1) ack ack_bits s

unfoldable pub is_acked : ℕ → ℕ → ℕ → Bool
is_acked ack ack_bits s = ack == s || bit_acks 32 0 ack ack_bits s

-- The meaning of an acknowledgement: it names its own number, and for each binary digit 1 of the field, the
-- i-th with i below 32, the number that i + 1 steps lead to it, modulo 65536.
abbrev pub IsNamed : ℕ → ℕ → ℕ → Type 0
IsNamed ack ack_bits s =
    (s ≡ ack) ⊎ ((i : ℕ) × (i < 32) × (binary_digit ack_bits i ≡ true) × (u16 (s + (i + 1)) ≡ ack))

names : ℕ → ℕ → ℕ → ℕ → Bool
names i ack ack_bits s = ack_bit ack_bits i && acked_sequence ack i == s

names_iff :
    (i ack ack_bits s : ℕ)
    → i < 32
    → ack < 2 ^ 16
    → s < 2 ^ 16
    → (names i ack ack_bits s ≡ true)
      ↔ ((binary_digit ack_bits i ≡ true) × (u16 (s + (i + 1)) ≡ ack))
unfolding names
names_iff i ack ack_bits s small ha hs =
    rw (bit_and-power ack_bits i) ((λ h. ground arith), (λ (d, e). ground (arith, d, e)))

bit_acks_iff :
    (rounds i ack ack_bits s : ℕ)
    → i + rounds ≤ 32
    → ack < 2 ^ 16
    → s < 2 ^ 16
    → (bit_acks rounds i ack ack_bits s ≡ true) ↔ (
        (k : ℕ) × (i ≤ k)
        × (k < i + rounds)
        × (binary_digit ack_bits k ≡ true)
        × (u16 (s + (k + 1)) ≡ ack))
unfolding names
bit_acks_iff zero i ack ack_bits s le ha hs =
    ((λ h. ground (arith, h)), (λ (k, lo, hi, _, _). absurd (omega arith)))
bit_acks_iff (suc rounds) i ack ack_bits s le ha hs = (
  (λ h. elim (Bool-cases (names i ack ack_bits s)) [
    | inl e ↦
        let (d, at) = (names_iff i ack ack_bits s (omega arith) ha hs).0 e in
        (i, omega arith, omega arith, d, at)
    | inr e ↦
        let (k, lo, hi, d, at) =
          (bit_acks_iff rounds (i + 1) ack ack_bits s (omega arith) ha hs).0
            (ground (arith, h, e)) in
        (k, omega arith, omega arith, d, at)
  ]),
  (λ (k, lo, hi, d, at). elim (Bool-cases (ltb i k)) [
    | inl e ↦
        let later =
          (bit_acks_iff rounds (i + 1) ack ack_bits s (omega arith) ha hs).1
            (k, ground (arith, e), omega arith, d, at) in
        ground (arith, later)
    | inr e ↦
        let here : k ≡ i = ground (arith, e, lo) in
        let now = (names_iff i ack ack_bits s (omega arith) ha hs).1 (
          subst (λ n. (binary_digit ack_bits n ≡ true) × (u16 (s + (n + 1)) ≡ ack)) here (d, at)) in
        ground (arith, now)
  ]),
)

is_acked_iff :
    (ack ack_bits s : ℕ)
    → ack < 2 ^ 16
    → s < 2 ^ 16
    → (is_acked ack ack_bits s ≡ true) ↔ IsNamed ack ack_bits s
unfolding is_acked
is_acked_iff ack ack_bits s ha hs =
    let bits = bit_acks_iff 32 0 ack ack_bits s (omega arith) ha hs in
    (
      (λ h. elim (Bool-cases (ack == s)) [
        | inl e ↦ inl (sym ((==_iff ack s).0 e))
        | inr e ↦ let (k, _, hi, d, at) = bits.0 (or_right (ack == s) _ e h) in inr (k, hi, d, at)
      ]),
      (λ n. elim n [
        | inl e ↦ or_left _ _ ((==_iff ack s).1 (sym e))
        | inr (k, hi, d, at) ↦ or_later (ack == s) _ (bits.1 (k, omega arith, hi, d, at))
      ]),
    )
  where
    or_right : (a b : Bool) → a ≡ false → (a || b) ≡ true → b ≡ true
    or_right a b e h = ground (arith, e, h)

    or_left : (a b : Bool) → a ≡ true → (a || b) ≡ true
    or_left a b e = ground (arith, e)

    or_later : (a b : Bool) → b ≡ true → (a || b) ≡ true
    or_later a b e = ground (arith, e)

keep-All :
    (s : ℕ) (fs : List InFlight)
    → All (λ g. g.sequence ≢ s) fs
    → keep (λ f. not (s == f.sequence)) fs ≡ fs
keep-All s [] a = refl
keep-All s (f ∷ fs) a = ground (arith, keep-All s fs a.1)

ack_packet-keep :
    (s : ℕ) (fs : List InFlight)
    → Distinct fs
    → ack_packet s fs ≡ keep (λ f. not (s == f.sequence)) fs
unfolding ack_packet
ack_packet-keep s [] d = refl
ack_packet-keep s (f ∷ fs) d = elim (Bool-cases (f.sequence == s)) [
  | inl e ↦ ground (
    arith,
    keep-All s fs (subst (λ k. All (λ g. g.sequence ≢ k) fs) ((==_iff f.sequence s).0 e) d.0),
  )
  | inr e ↦ ground (arith, ack_packet-keep s fs d.1)
]

All-keep :
    (P : InFlight → Type 0) (p : InFlight → Bool) (fs : List InFlight)
    → All P fs
    → All P (keep p fs)
All-keep P p [] a = tt
All-keep P p (f ∷ fs) a = elim (Bool-cases (p f)) [
  | inl e ↦ rw e (a.0, All-keep P p fs a.1)
  | inr e ↦ rw e (All-keep P p fs a.1)
]

Distinct-keep : (p : InFlight → Bool) (fs : List InFlight) → Distinct fs → Distinct (keep p fs)
Distinct-keep p [] d = tt
Distinct-keep p (f ∷ fs) d = elim (Bool-cases (p f)) [
  | inl e ↦ rw e (All-keep _ p fs d.0, Distinct-keep p fs d.1)
  | inr e ↦ rw e (Distinct-keep p fs d.1)
]

keep-keep :
    (p q r : InFlight → Bool) (fs : List InFlight)
    → ((f : InFlight) → r f ≡ (p f && q f))
    → keep q (keep p fs) ≡ keep r fs
keep-keep p q r [] h = refl
keep-keep p q r (f ∷ fs) h = ground (arith, h f, keep-keep p q r fs h)

keep-true : (fs : List InFlight) → fs ≡ keep (λ f. true) fs
keep-true [] = refl
keep-true (f ∷ fs) = ap (◌∷◌ f) (keep-true fs)

ack_packet-Distinct : (s : ℕ) (fs : List InFlight) → Distinct fs → Distinct (ack_packet s fs)
ack_packet-Distinct s fs d =
    subst Distinct (sym (ack_packet-keep s fs d)) (Distinct-keep (λ f. not (s == f.sequence)) fs d)

not_or : (a b : Bool) → not (a || b) ≡ (not a && not b)
not_or a b = ground arith

ack_bits_from-keep :
    (rounds i ack ack_bits : ℕ) (fs : List InFlight)
    → Distinct fs
    → ack_bits_from rounds i ack ack_bits fs
      ≡ keep (λ f. not (bit_acks rounds i ack ack_bits f.sequence)) fs
unfolding ack_bits_from
ack_bits_from-keep zero i ack ack_bits fs d = keep-true fs
ack_bits_from-keep (suc rounds) i ack ack_bits fs d = elim (Bool-cases (ack_bit ack_bits i)) [
  | inl e ↦ rw e (
      ack_bits_from-keep rounds (i + 1) ack ack_bits _ (ack_packet-Distinct s fs d)
      ∙ ap (keep (λ f. not (bit_acks rounds (i + 1) ack ack_bits f.sequence)))
          (ack_packet-keep s fs d)
      ∙ keep-keep (λ f. not (s == f.sequence)) _ _ fs (λ f. ground arith))
  | inr e ↦ rw e (ack_bits_from-keep rounds (i + 1) ack ack_bits fs d)
]
  where
    s : ℕ
    s = acked_sequence ack i

-- For 16-bit numbers: where the numbers in flight are distinct, an acknowledgement removes from the window
-- exactly the packets that `is_acked` holds of, and keeps the others in send order, with distinct numbers.
-- That test holds exactly of the number of the acknowledgement itself and of those i + 1 steps before it,
-- modulo 65536, for which the i-th binary digit of its field is 1, i below 32.
pub process_ack_lem :
    (r : Reliability) (ack ack_bits s : ℕ)
    → Distinct r.inflight
    → ack < 2 ^ 16
    → s < 2 ^ 16
    → ((process_ack r ack ack_bits).inflight
        ≡ keep (λ f. not (is_acked ack ack_bits f.sequence)) r.inflight)
      × Distinct (process_ack r ack ack_bits).inflight
      × ((is_acked ack ack_bits s ≡ true) ↔ IsNamed ack ack_bits s)
unfolding process_ack is_acked
process_ack_lem r ack ack_bits s d ha hs = (
  kept,
  subst Distinct (sym kept) (Distinct-keep _ r.inflight d),
  is_acked_iff ack ack_bits s ha hs,
)
  where
    kept :
        ack_bits_from 32 0 ack ack_bits (ack_packet ack r.inflight)
        ≡ keep (λ f. not (ack == f.sequence || bit_acks 32 0 ack ack_bits f.sequence)) r.inflight
    kept =
        ack_bits_from-keep 32 0 ack ack_bits _ (ack_packet-Distinct ack r.inflight d)
        ∙ ap (keep (λ f. not (bit_acks 32 0 ack ack_bits f.sequence)))
            (ack_packet-keep ack r.inflight d)
        ∙ keep-keep (λ f. not (ack == f.sequence)) _ _ r.inflight
            (λ f. not_or (ack == f.sequence) (bit_acks 32 0 ack ack_bits f.sequence))
