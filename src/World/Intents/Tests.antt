-- ===== src/World/Intents/Tests.antt =====
-- Histories of calls on an intent store, and what the theorems say of them.
use stalker_mp.Base.{ℕ, ◌≡◌, true, List, [], ◌∷◌, none, arith}
use stalker_mp.World.Intents.{
  TransitionState, empty_store, get_intent, validate_store, store_is_healthy,
}
use stalker_mp.World.Intents.Laws.{or_offline}
use stalker_mp.World.Intents.Calls.{
  Call, sets, erases, run, run_map, run-empty_store_refines, run-empty_store_canonical,
}

abbrev two_sets : List Call
two_sets = sets 4 TransitionState.online ∷ sets 2 TransitionState.pending_online ∷ []

abbrev with_erasure : List Call
with_erasure =
    sets 2 TransitionState.pending_online
    ∷ sets 9 TransitionState.online
    ∷ sets 4 TransitionState.offline
    ∷ erases 9
    ∷ sets 4 TransitionState.online
    ∷ []

run-empty_store_refines_example :
    let cs : List Call = with_erasure in
    let id : ℕ = 4 in
    (get_intent (run empty_store cs) id ≡ or_offline (run_map (λ j. none) cs id))
    × (store_is_healthy (validate_store (run empty_store cs)) ≡ true)
run-empty_store_refines_example = run-empty_store_refines with_erasure 4

run-empty_store_canonical_example :
    let cs : List Call = two_sets in
    let ds : List Call = with_erasure in run empty_store cs ≡ run empty_store ds
run-empty_store_canonical_example =
    run-empty_store_canonical two_sets with_erasure (λ id. ground arith)
