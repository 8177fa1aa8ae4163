-- ===== src/Prediction/Inputs/Laws.antt =====
-- The input buffer against a bounded queue that remembers the last sequence.
use stalker_mp.Base.{
  subst, ap₂, length-replicate, length-set, ◌%◌, ℕ, ◌+◌, ◌<◌, ◌≡◌, refl, sym, ap, ◌∙◌, Bool, true,
  false, ◌&&◌, List, [], ◌∷◌, ◌++◌, Option, none, some, length, keep, ltb, leb, ◌==◌, if◌then◌else◌,
  arith, Bool-cases, inl, inr,
}
use stalker_mp.Keyed.Laws.{Ascending, Above-Ascending, Under, Under-append, Under-mono}
use stalker_mp.Keyed.Keep.{keep-Above, Ascending-keep, Under-keep, append-Ascending}
use stalker_mp.Ring.{Ring, capacity, push_back, pop_front}
use stalker_mp.Ring.Laws.{
  Holds, new_ring-Holds, push_back-Holds, pop_front-Holds, contents-Holds, front-Holds,
}
use stalker_mp.Prediction.Inputs.{
  PredictionOutcome, InputBuffer, new_inputs, clear_inputs, push_input, prune_rounds, prune_up_to,
  pending,
}

-- The specification: the inputs that wait, and the last sequence, if there was one.
pub record Waiting (A : Type 0) : Type 0 where
  pub items : List A
  pub last : Option ℕ

pub data Call (A : Type 0) : Type 0 where
  pushes : A → Call A
  prunes : ℕ → Call A
  clears : Call A

module _ {A : Type 0} (sequence : A → ℕ) where
  abbrev pub regresses : Option ℕ → ℕ → Bool
  regresses none s = false
  regresses (some l) s = leb s l

  abbrev pub step_waiting : ℕ → Waiting A → Call A → Option PredictionOutcome × Waiting A
  step_waiting size q (pushes c) =
      if regresses q.last (sequence c)
      then (some PredictionOutcome.sequence_mismatch, q)
      else if leb size (length q.items)
      then (some PredictionOutcome.buffer_overflow, q)
      else (
        some PredictionOutcome.ok,
        record { items = q.items ++ c ∷ []; last = some (sequence c) },
      )
  step_waiting size q (prunes s) =
      (none, record q { items = keep (λ c. ltb s (sequence c)) q.items })
  step_waiting size q clears = (none, record { items = []; last = none })

  abbrev pub step : InputBuffer A → Call A → Option PredictionOutcome × InputBuffer A
  step b (pushes c) = let (out, b') = push_input sequence b c in (some out, b')
  step b (prunes s) = (none, prune_up_to sequence b s)
  step b clears = (none, clear_inputs b)

  abbrev pub run : InputBuffer A → List (Call A) → List (Option PredictionOutcome) × InputBuffer A
  run b [] = ([], b)
  run b (c ∷ cs) = let (out, b') = step b c in let (outs, b'') = run b' cs in (out ∷ outs, b'')

  abbrev pub run_waiting :
      ℕ → Waiting A → List (Call A) → List (Option PredictionOutcome) × Waiting A
  run_waiting size q [] = ([], q)
  run_waiting size q (c ∷ cs) =
      let (out, q') = step_waiting size q c in
      let (outs, q'') = run_waiting size q' cs in (out ∷ outs, q'')

  -- No input that waits is beyond the last sequence.
  abbrev Bounded : Option ℕ → List A → Type 0
  Bounded none xs = xs ≡ []
  Bounded (some l) xs = Under sequence (l + 1) xs

  pub record Refines (size : ℕ) (b : InputBuffer A) (q : Waiting A) : Type 0 where
    pub holds : Holds b.ring q.items
    pub sized : capacity b.ring ≡ size
    pub ascending : Ascending sequence q.items
    pub below_last : Bounded q.last q.items
    pub accepted : (if b.ever_accepted then some b.last_sequence else none) ≡ q.last

  prune_rounds-Holds :
      (s : ℕ) (xs : List A) (r : Ring A)
      → Holds r xs
      → Ascending sequence xs
      → Holds (prune_rounds sequence (length xs) s r) (keep (λ c. ltb s (sequence c)) xs)
        × (capacity (prune_rounds sequence (length xs) s r) ≡ capacity r)
  unfolding prune_rounds
  prune_rounds-Holds s [] r h a = (h, refl)
  prune_rounds-Holds s (x ∷ xs) r h a =
      let (later, size) =
        prune_rounds-Holds s xs (pop_front r) (pop_front-Holds r x xs h)
          (Above-Ascending sequence (sequence x) xs a) in
      elim (Bool-cases (leb (sequence x) s)) [
        | inl e ↦ rw (prune_rounds, front-Holds r x xs h) (ground (arith, e, later, size))
        | inr e ↦
            let all_kept = keep-Above sequence s (x ∷ xs) (ground (arith, e), a) in
            rw (prune_rounds, front-Holds r x xs h, e) (subst (Holds r) (sym all_kept) h, refl)
      ]

  Bounded-keep :
      (l : Option ℕ) (s : ℕ) (xs : List A)
      → Bounded l xs
      → Bounded l (keep (λ c. ltb s (sequence c)) xs)
  Bounded-keep none s xs b = ap (keep (λ c. ltb s (sequence c))) b
  Bounded-keep (some l) s xs b = Under-keep sequence (l + 1) s xs b

  Bounded-later :
      (l : Option ℕ) (c : A) (xs : List A)
      → Bounded l xs
      → regresses l (sequence c) ≡ false
      → Under sequence (sequence c) xs
  Bounded-later none c xs b h = subst (Under sequence (sequence c)) (sym b) tt
  Bounded-later (some l) c xs b h =
      Under-mono sequence (l + 1) (sequence c) xs (ground (arith, h)) b

  prune-Refines :
      (size : ℕ) (b : InputBuffer A) (q : Waiting A) (s : ℕ)
      → Refines size b q
      → Refines size (prune_up_to sequence b s) (step_waiting size q (prunes s)).1
  unfolding prune_up_to
  prune-Refines size b q s r =
      let kept = prune_rounds-Holds s q.items b.ring r.holds r.ascending in
      let rounds = ap (λ n. prune_rounds sequence n s b.ring) r.holds.counted in
      record {
        holds = subst (λ x. Holds x (keep (λ c. ltb s (sequence c)) q.items)) (sym rounds) kept.0;
        sized = ap capacity rounds ∙ kept.1 ∙ r.sized;
        ascending = Ascending-keep sequence s q.items r.ascending;
        below_last = Bounded-keep q.last s q.items r.below_last;
        accepted = r.accepted;
      }

  clear-Refines :
      (size : ℕ) (b : InputBuffer A) (q : Waiting A)
      → 0 < size
      → Refines size b q
      → Refines size (clear_inputs b) (record { items = []; last = none })
  clear-Refines size b q h r = record {
    holds = record {
      counted = refl;
      in_range = omega (arith, r.sized);
      bounded = omega arith;
      stored = λ i k. absurd (omega arith);
    };
    sized = r.sized;
    ascending = tt;
    below_last = refl;
    accepted = refl;
  }

  accept-Refines :
      (size : ℕ) (b : InputBuffer A) (q : Waiting A) (c : A)
      → Refines size b q
      → regresses q.last (sequence c) ≡ false
      → length q.items < size
      → Refines size
          (record { ring = push_back b.ring c; last_sequence = sequence c; ever_accepted = true })
          (record { items = q.items ++ c ∷ []; last = some (sequence c) })
  accept-Refines size b q c r later room = record {
    holds = push_back-Holds b.ring q.items c r.holds (omega (arith, r.sized));
    sized = length-set b.ring.buffer ((b.ring.head + b.ring.count) % capacity b.ring) c ∙ r.sized;
    ascending =
        append-Ascending sequence q.items c r.ascending
          (Bounded-later q.last c q.items r.below_last later);
    below_last =
        Under-append sequence (sequence c + 1) q.items c
          (Under-mono sequence (sequence c) (sequence c + 1) q.items (omega arith)
            (Bounded-later q.last c q.items r.below_last later))
          (omega arith);
    accepted = refl;
  }

  push-Refines :
      (size : ℕ) (b : InputBuffer A) (q : Waiting A) (c : A)
      → Refines size b q
      → ((step b (pushes c)).0 ≡ (step_waiting size q (pushes c)).0)
        × Refines size (step b (pushes c)).1 (step_waiting size q (pushes c)).1
  unfolding push_input
  push-Refines size b q c r =
      let later : (b.ever_accepted && leb (sequence c) b.last_sequence)
          ≡ regresses q.last (sequence c) =
        ground (arith, r.accepted) in
      let full : leb (capacity b.ring) b.ring.count ≡ leb size (length q.items) =
        rw (r.sized, r.holds.counted) refl in
      elim (Bool-cases (regresses q.last (sequence c))) [
        | inl e ↦ rw (push_input, later, e) (refl, r)
        | inr e ↦ elim (Bool-cases (leb size (length q.items))) [
          | inl f ↦ rw (push_input, later, e, full, f) (refl, r)
          | inr f ↦
              rw (push_input, later, e, full, f)
                (refl, accept-Refines size b q c r e (ground (arith, f)))
        ]
      ]

  step-Refines :
      (size : ℕ) (b : InputBuffer A) (q : Waiting A) (c : Call A)
      → 0 < size
      → Refines size b q
      → ((step b c).0 ≡ (step_waiting size q c).0)
        × Refines size (step b c).1 (step_waiting size q c).1
  step-Refines size b q (prunes s) h r = (refl, prune-Refines size b q s r)
  step-Refines size b q clears h r = (refl, clear-Refines size b q h r)
  step-Refines size b q (pushes c) h r = push-Refines size b q c r

  run-Refines :
      (size : ℕ) (b : InputBuffer A) (q : Waiting A) (cs : List (Call A))
      → 0 < size
      → Refines size b q
      → ((run b cs).0 ≡ (run_waiting size q cs).0)
        × Refines size (run b cs).1 (run_waiting size q cs).1
  run-Refines size b q [] h r = (refl, r)
  run-Refines size b q (c ∷ cs) h r =
      let (out, r') = step-Refines size b q c h r in
      let (outs, r'') = run-Refines size (step b c).1 (step_waiting size q c).1 cs h r' in
      (ap₂ (λ o os. o ∷ os) out outs, r'')

  pending-Refines :
      (size : ℕ) (b : InputBuffer A) (q : Waiting A) (from : ℕ)
      → Refines size b q
      → pending sequence b from ≡ keep (λ c. ltb from (sequence c)) q.items
  unfolding pending
  pending-Refines size b q from r =
      ap (keep (λ c. ltb from (sequence c))) (contents-Holds b.ring q.items r.holds)

  abbrev pub no_inputs : Waiting A
  no_inputs = record { items = []; last = none }

  new_inputs-Refines :
      (blank : A) (n : ℕ) → Refines (if n == 0 then 1 else n) (new_inputs blank n) no_inputs
  new_inputs-Refines blank n = record {
    holds = new_ring-Holds blank (if n == 0 then 1 else n) (ground arith);
    sized = length-replicate (if n == 0 then 1 else n) blank;
    ascending = tt;
    below_last = refl;
    accepted = refl;
  }

  -- A new input buffer implements a bounded queue that remembers its last sequence: for every history of
  -- pushes, prunes and clears, a ring of the configured capacity (one where that is 0) gives the same
  -- outcomes as the queue, and the inputs pending from any sequence are those of the queue above it, in order.
  pub run-new_inputs_refines :
      (blank : A) (n : ℕ) (cs : List (Call A)) (from : ℕ)
      → let (outs, b) = run (new_inputs blank n) cs in
        let (outs', q) = run_waiting (if n == 0 then 1 else n) no_inputs cs in
        (outs ≡ outs') × (pending sequence b from ≡ keep (λ c. ltb from (sequence c)) q.items)
  run-new_inputs_refines blank n cs from =
      let size = if n == 0 then 1 else n in
      let (outs, r) =
        run-Refines size (new_inputs blank n) no_inputs cs (ground arith)
          (new_inputs-Refines blank n) in
      (
        outs,
        pending-Refines size (run (new_inputs blank n) cs).1 (run_waiting size no_inputs cs).1 from
            r,
      )
