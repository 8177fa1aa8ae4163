-- ===== src/World/Registry/Integrity.antt =====
-- `ValidateIntegrity` of world/EntityRegistry.cpp.
use stalker_mp.Base.{
  ℕ, ◌+◌, ◌<◌, ◌^◌, ◌≡◌, refl, ap, ◌∙◌, inl, inr, true, false, none, some, List, [], ◌∷◌, arith,
  length, All,
}
use stalker_mp.Keyed.{Index}
use stalker_mp.Keyed.Laws.{Ascending, Above, lookup-key, lookup}
use stalker_mp.Keyed.Position.{All-lookup}
use stalker_mp.World.Types.{EntityRecord, record_key}
use stalker_mp.World.Registry.{EntityRegistry, empty}
use stalker_mp.World.Registry.Queries.{
  RegistryIntegrityReport, inspect, validate_integrity, is_healthy, is_mismatched,
}
use stalker_mp.World.Registry.Laws.{
  live, find_by_handle-live, register_entity_lem, unregister_entity_lem, restore_entity_lem,
}
use stalker_mp.World.Registry.States.{set_registration_state_lem}
use stalker_mp.World.Registry.Moves.{
  Call, registers, unregisters, restores, sets_state, step, live_generation,
}
use stalker_mp.World.Registry.Stale.{IsValid, Admissible, step-IsValid, run, AllAdmissible-mono}

-- What the scan wants of one record.
abbrev Sound : Index → EntityRecord → Type 0
Sound m e = (0 < e.handle.id) × (0 < e.handle.generation) × (is_mismatched m e ≡ false)

abbrev empty_report : RegistryIntegrityReport
empty_report = record {
  duplicate_ids = [];
  out_of_order = [];
  invalid_records = [];
  generation_mismatches = [];
}

inspect-after :
    (m : Index) (p : ℕ) (es : List EntityRecord)
    → Above record_key p es
    → All (Sound m) es
    → inspect m (some p) empty_report es ≡ empty_report
unfolding inspect
inspect-after m p [] a s = refl
inspect-after m p (e ∷ es) a s = ground (arith, inspect-after m e.handle.id es a.1 s.1)

inspect-first :
    (m : Index) (es : List EntityRecord)
    → Ascending record_key es
    → All (Sound m) es
    → inspect m none empty_report es ≡ empty_report
unfolding inspect
inspect-first m [] a s = refl
inspect-first m (e ∷ es) a s = ground (arith, inspect-after m e.handle.id es a s.1)

step-no_zero :
    (r : EntityRegistry) (c : Call)
    → Ascending record_key r.records
    → live r 0 ≡ none
    → live (step r c) 0 ≡ none
unfolding step
step-no_zero r (registers id name metadata) a z = elim (register_entity_lem r id name metadata a) [
  | inl (_, _, e, _) ↦ ap (λ s. live s 0) e ∙ z
  | inr (inl (_, _, _, e, _)) ↦ ap (λ s. live s 0) e ∙ z
  | inr (inr (inl (_, _, _, _, e, _))) ↦ ap (λ s. live s 0) e ∙ z
  | inr (inr (inr (_, positive, _, _, lives, _, _))) ↦ ground (arith, lives 0)
]
step-no_zero r (unregisters h) a z =
    let (_, branch) = unregister_entity_lem r h a in
    elim branch [
      | inl (_, _, e, _) ↦ ap (λ s. live s 0) e ∙ z
      | inr (inl (_, _, _, e, _)) ↦ ap (λ s. live s 0) e ∙ z
      | inr (inr (inl (_, _, _, _, e, _))) ↦ ap (λ s. live s 0) e ∙ z
      | inr (inr (inr (e, _, _, _, _, _, lives, _, _))) ↦ ground (arith, lives 0)
    ]
step-no_zero r (restores id generation name metadata) a z =
    elim (restore_entity_lem r id generation name metadata a) [
      | inl (_, _, e, _) ↦ ap (λ s. live s 0) e ∙ z
      | inr (inl (_, _, e, _)) ↦ ap (λ s. live s 0) e ∙ z
      | inr (inr (inl (_, _, e, _))) ↦ ap (λ s. live s 0) e ∙ z
      | inr (inr (inr (positive, _, _, _, lives, _, _))) ↦ ground (arith, lives 0)
    ]
step-no_zero r (sets_state h target) a z = elim (set_registration_state_lem r h target a) [
  | inl (_, _, e) ↦ ap (λ s. live s 0) e ∙ z
  | inr (inl (_, _, e)) ↦ ap (λ s. live s 0) e ∙ z
  | inr (inr (inl (_, _, e))) ↦ ap (λ s. live s 0) e ∙ z
  | inr (inr (inr (x, found, inl (_, _, e)))) ↦ ap (λ s. live s 0) e ∙ z
  | inr (inr (inr (x, found, inr (_, _, lives)))) ↦
      ground (arith, lives 0, find_by_handle-live r h a)
]

valid-Sound :
    (limit : ℕ) (r : EntityRegistry) (id : ℕ) (e : EntityRecord)
    → IsValid limit r
    → live r 0 ≡ none
    → lookup record_key r.records id ≡ some e
    → Sound r.generation_by_id e
unfolding live live_generation
valid-Sound limit r id e v z found =
    ground (arith, lookup-key record_key id r.records found, v.given id e.handle.generation)

run-healthy :
    (limit : ℕ) (r : EntityRegistry) (cs : List Call)
    → IsValid limit r
    → live r 0 ≡ none
    → limit + length cs < 2 ^ 32
    → All (Admissible limit) cs
    → is_healthy (validate_integrity (run r cs)) ≡ true
unfolding run validate_integrity
run-healthy limit r [] v z small a = ap is_healthy (
    inspect-first r.generation_by_id r.records v.ascending (
      All-lookup record_key (Sound r.generation_by_id) r.records v.ascending
        (λ id e found. valid-Sound limit r id e v z found)))
run-healthy limit r (c ∷ cs) v z small a =
    run-healthy (limit + 1) (step r c) cs (step-IsValid limit r c v (omega arith) a.0)
      (step-no_zero r c v.ascending z) (omega arith)
      (AllAdmissible-mono limit (limit + 1) cs (omega arith) a.1)

empty-none : (id : ℕ) → live empty id ≡ none
unfolding empty live lookup
empty-none id = refl

pub empty-IsValid : (limit : ℕ) → IsValid limit empty
unfolding live_generation empty
empty-IsValid limit = record {
  ascending = tt;
  given = λ id g e. ground (arith, empty-none id);
  limited = λ id. omega arith;
}

-- After any history of registrations, removals, restorations and state changes from the empty registry,
-- the integrity report is empty. The hypotheses bound restored generations and the number of calls, so
-- that 32-bit generations do not wrap round.
pub run-empty-healthy :
    (limit : ℕ) (cs : List Call)
    → limit + length cs < 2 ^ 32
    → All (Admissible limit) cs
    → is_healthy (validate_integrity (run empty cs)) ≡ true
run-empty-healthy limit cs small a =
    run-healthy limit empty cs (empty-IsValid limit) (empty-none 0) small a
