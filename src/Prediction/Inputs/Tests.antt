-- ===== src/Prediction/Inputs/Tests.antt =====
-- A history of an input buffer of two places, and what the theorem says of it.
use stalker_mp.Base.{ℕ, ◌≡◌, List, [], ◌∷◌, keep, ltb, ◌==◌, if◌then◌else◌}
use stalker_mp.Prediction.Inputs.{new_inputs, pending}
use stalker_mp.Prediction.Inputs.Laws.{
  Call, pushes, prunes, run, run_waiting, no_inputs, run-new_inputs_refines,
}

abbrev self : ℕ → ℕ
self n = n

abbrev some_calls : List (Call ℕ)
some_calls = pushes 3 ∷ pushes 3 ∷ pushes 5 ∷ pushes 6 ∷ prunes 3 ∷ pushes 8 ∷ []

run-new_inputs_refines_example :
    let sequence : ℕ → ℕ = self in
    let blank : ℕ = 0 in
    let n : ℕ = 2 in
    let cs : List (Call ℕ) = some_calls in
    let from : ℕ = 5 in
    let (outs, b) = run sequence (new_inputs blank n) cs in
    let (outs', q) = run_waiting sequence (if n == 0 then 1 else n) (no_inputs sequence) cs in
    (outs ≡ outs') × (pending sequence b from ≡ keep (λ c. ltb from (sequence c)) q.items)
run-new_inputs_refines_example = run-new_inputs_refines self 0 2 some_calls 5
