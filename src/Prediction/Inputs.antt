-- ===== src/Prediction/Inputs.antt =====
-- prediction/InputBuffer.h: the inputs that the host has not acknowledged, by ascending sequence. Of an
-- input only its sequence is read; what a default one is, is an argument.
pub mod Laws
pub mod Tests
use stalker_mp.Base.{
  ℕ, zero, suc, ◌+◌, Bool, true, false, ◌&&◌, List, [], ◌∷◌, Option, none, some, get_elem?, keep,
  ltb, leb, ◌==◌, if◌then◌else◌,
}
use stalker_mp.Ring.{Ring, capacity, new_ring, is_full, push_back, pop_front, clear_ring, contents}

pub data PredictionOutcome : Type 0 where
  ok client_only buffer_overflow sequence_mismatch no_authoritative_frame correction_rejected :
      PredictionOutcome

pub record InputBuffer (A : Type 0) : Type 0 where
  pub ring : Ring A
  pub last_sequence : ℕ
  pub ever_accepted : Bool

module _ {A : Type 0} where
  abbrev pub new_inputs : A → ℕ → InputBuffer A
  new_inputs blank n = record {
    ring = new_ring blank (if n == 0 then 1 else n);
    last_sequence = 0;
    ever_accepted = false;
  }

  abbrev pub clear_inputs : InputBuffer A → InputBuffer A
  clear_inputs b = record { ring = clear_ring b.ring; last_sequence = 0; ever_accepted = false }

  module _ (sequence : A → ℕ) where
    unfoldable pub push_input : InputBuffer A → A → PredictionOutcome × InputBuffer A
    push_input b c =
        if b.ever_accepted && leb (sequence c) b.last_sequence
        then (PredictionOutcome.sequence_mismatch, b)
        else if is_full b.ring
        then (PredictionOutcome.buffer_overflow, b)
        else (
          PredictionOutcome.ok,
          record { ring = push_back b.ring c; last_sequence = sequence c; ever_accepted = true },
        )

    -- The loop runs while there is an element, so at most `m_count` rounds.
    unfoldable pub prune_rounds : ℕ → ℕ → Ring A → Ring A
    prune_rounds zero s r = r
    prune_rounds (suc n) s r =
        let rest = prune_rounds n s (pop_front r) in
        elim (get_elem? r.buffer r.head) [
          | none ↦ r
          | some c ↦ if leb (sequence c) s then rest else r
        ]

    unfoldable pub prune_up_to : InputBuffer A → ℕ → InputBuffer A
    unfolding prune_rounds
    prune_up_to b s = record b { ring = prune_rounds b.ring.count s b.ring }

    unfoldable pub pending : InputBuffer A → ℕ → List A
    unfolding contents
    pending b from = keep (λ c. ltb from (sequence c)) (contents b.ring)
