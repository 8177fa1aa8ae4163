-- ===== src/World/Registry/Stale.antt =====
-- Handles of entities that are gone, over any history of calls.
use stalker_mp.Base.{
  ℕ, ◌+◌, ◌≤◌, ◌<◌, ◌^◌, ◌≡◌, ◌≢◌, inl, inr, Option, none, some, List, [], ◌∷◌, arith, length, All,
  ok,
}
use stalker_mp.Keyed.Laws.{Ascending}
use stalker_mp.World.Types.{EntityHandle, record_key}
use stalker_mp.World.Registry.{EntityRegistry, last_generation, find_by_handle, unregister_entity}
use stalker_mp.World.Registry.Laws.{find_by_handle-live, unregister_entity_lem}
use stalker_mp.World.Registry.Moves.{
  Call, registers, unregisters, restores, sets_state, step, restored_at, live_generation, Moves,
  Step, step-Moves, step-Ascending,
}

-- The order of the records, every live generation is at least 1 and was given out, and no generation is
-- above a limit.
pub record IsValid (limit : ℕ) (r : EntityRegistry) : Type 0 where
  pub ascending : Ascending record_key r.records
  pub given : (id g : ℕ) → live_generation r id ≡ some g → (0 < g) × (g ≤ last_generation r id)
  pub limited : (id : ℕ) → last_generation r id ≤ limit

-- A restored generation is within the limit.
abbrev pub Admissible : ℕ → Call → Type 0
Admissible limit (restores id generation name metadata) = generation ≤ limit
Admissible limit _ = Unit

move-given :
    (at o o' : Option ℕ) (l l' g : ℕ)
    → Moves at o l o' l'
    → ((k : ℕ) → o ≡ some k → (0 < k) × (k ≤ l))
    → o' ≡ some g
    → (0 < g) × (g ≤ l')
move-given at o o' l l' g m h e = elim m [
  | inl s ↦ ground (arith, h g)
  | inr (inl s) ↦ ground arith
  | inr (inr (inl s)) ↦ ground arith
  | inr (inr (inr (k, q, positive, free, s, t))) ↦ ground arith
]

move-limited :
    (limit : ℕ) (at o o' : Option ℕ) (l l' : ℕ)
    → Moves at o l o' l'
    → ((k : ℕ) → at ≡ some k → k ≤ limit)
    → l ≤ limit
    → l' ≤ limit + 1
move-limited limit at o o' l l' m p h = elim m [
  | inl s ↦ ground arith
  | inr (inl s) ↦ ground arith
  | inr (inr (inl s)) ↦ ground arith
  | inr (inr (inr (k, q, positive, free, s, t))) ↦ ground (arith, p k)
]

restored_at-Admissible :
    (limit : ℕ) (c : Call) (j k : ℕ) → Admissible limit c → restored_at c j ≡ some k → k ≤ limit
restored_at-Admissible limit (registers id name metadata) j k a e = cc
restored_at-Admissible limit (unregisters h) j k a e = cc
restored_at-Admissible limit (restores id generation name metadata) j k a e = ground arith
restored_at-Admissible limit (sets_state h target) j k a e = cc

pub step-IsValid :
    (limit : ℕ) (r : EntityRegistry) (c : Call)
    → IsValid limit r
    → limit + 1 < 2 ^ 32
    → Admissible limit c
    → IsValid (limit + 1) (step r c)
step-IsValid limit r c v small a = record {
  ascending = step-Ascending r c v.ascending;
  given = λ id g e. move-given (restored_at c id) _ _ _ _ g (moved id) (v.given id) e;
  limited = λ id.
      move-limited limit (restored_at c id) _ _ _ _ (moved id)
        (λ k q. restored_at-Admissible limit c id k a q) (v.limited id);
}
  where
    below : (id : ℕ) → last_generation r id + 1 < 2 ^ 32
    below id = omega (arith, v.limited id)

    moved : (id : ℕ) → Step (restored_at c id) r (step r c) id
    moved id = step-Moves r c id v.ascending below

unfoldable pub run : EntityRegistry → List Call → EntityRegistry
run r [] = r
run r (c ∷ cs) = run (step r c) cs

-- The generation was given out for the id, and no live entity has it.
abbrev pub Retired : EntityRegistry → EntityHandle → Type 0
Retired r h = (live_generation r h.id ≢ some h.generation) × (h.generation ≤ last_generation r h.id)

move-Retired :
    (at o o' : Option ℕ) (l l' g : ℕ)
    → Moves at o l o' l'
    → at ≢ some g
    → (o ≢ some g) × (g ≤ l)
    → (o' ≢ some g) × (g ≤ l')
move-Retired at o o' l l' g m n h = elim m [
  | inl s ↦ ground arith
  | inr (inl s) ↦ ground arith
  | inr (inr (inl s)) ↦ ground arith
  | inr (inr (inr (k, q, positive, free, s, t))) ↦ ground arith
]

Admissible-mono : (a b : ℕ) (c : Call) → a ≤ b → Admissible a c → Admissible b c
Admissible-mono a b (registers id name metadata) le h = tt
Admissible-mono a b (unregisters g) le h = tt
Admissible-mono a b (restores id generation name metadata) le h = omega arith
Admissible-mono a b (sets_state g target) le h = tt

pub AllAdmissible-mono :
    (a b : ℕ) (cs : List Call) → a ≤ b → All (Admissible a) cs → All (Admissible b) cs
AllAdmissible-mono a b [] le h = tt
AllAdmissible-mono a b (c ∷ cs) le h =
    (Admissible-mono a b c le h.0, AllAdmissible-mono a b cs le h.1)

run-Retired :
    (limit : ℕ) (r : EntityRegistry) (h : EntityHandle) (cs : List Call)
    → IsValid limit r
    → limit + length cs < 2 ^ 32
    → All (Admissible limit) cs
    → All (λ c. restored_at c h.id ≢ some h.generation) cs
    → Retired r h
    → (Ascending record_key (run r cs).records) × Retired (run r cs) h
unfolding run
run-Retired limit r h [] v small a n t = (v.ascending, t)
run-Retired limit r h (c ∷ cs) v small a n t =
    run-Retired (limit + 1) (step r c) h cs (step-IsValid limit r c v (omega arith) a.0)
      (omega arith) (AllAdmissible-mono limit (limit + 1) cs (omega arith) a.1) n.1
      (move-Retired (restored_at c h.id) _ _ _ _ h.generation
        (step-Moves r c h.id v.ascending (λ id. omega (arith, v.limited id))) n.0 t)

Retired-stale :
    (r : EntityRegistry) (h : EntityHandle)
    → Ascending record_key r.records
    → Retired r h
    → find_by_handle r h ≡ none
unfolding live_generation
Retired-stale r h a t = ground (arith, find_by_handle-live r h a)

unregistered-Retired :
    (limit : ℕ) (r : EntityRegistry) (h : EntityHandle)
    → IsValid limit r
    → (unregister_entity r h).0 ≡ ok tt
    → Retired (unregister_entity r h).1 h
unfolding live_generation
unregistered-Retired limit r h v done =
    let (lasts, branch) = unregister_entity_lem r h v.ascending in
    elim branch [
      | inl (_, e, _, _) ↦ cc
      | inr (inl (_, _, e, _, _)) ↦ cc
      | inr (inr (inl (_, _, _, e, _, _))) ↦ cc
      | inr (inr (inr (e, _, _, here, same, _, lives, _, _))) ↦
          ground (arith, lives h.id, lasts h.id, v.given h.id h.generation)
    ]

-- In a valid registry, a handle whose entity was unregistered finds nothing ever after: no history of
-- registrations, removals, restorations and state changes brings it back, unless it restores that very id
-- and generation. The hypotheses bound restored generations and the number of calls, so that 32-bit
-- generations do not wrap round.
pub unregistered_stale :
    (limit : ℕ) (r : EntityRegistry) (h : EntityHandle) (cs : List Call)
    → IsValid limit r
    → limit + 1 + length cs < 2 ^ 32
    → All (Admissible limit) cs
    → All (λ c. restored_at c h.id ≢ some h.generation) cs
    → (unregister_entity r h).0 ≡ ok tt
    → find_by_handle (run (unregister_entity r h).1 cs) h ≡ none
unregistered_stale limit r h cs v small a n done =
    let (sorted, retired) =
      run-Retired (limit + 1) (unregister_entity r h).1 h cs
        (unfold step in step-IsValid limit r (unregisters h) v (omega arith) tt) small
        (AllAdmissible-mono limit (limit + 1) cs (omega arith) a) n
        (unregistered-Retired limit r h v done) in
    Retired-stale (run (unregister_entity r h).1 cs) h sorted retired
