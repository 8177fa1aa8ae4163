-- ===== src/World/Registry/Statistics.antt =====
-- `ComputeStatistics` of world/EntityRegistry.cpp.
use stalker_mp.Base.{ℕ, ◌+◌, ◌≡◌, refl, List, [], ◌∷◌, arith, length, keep}
use stalker_mp.World.Types.{EntityRecord, EntityCategory, is_dynamic}
use stalker_mp.World.Registry.{EntityRegistry}
use stalker_mp.World.Registry.Queries.{
  RegistryStatistics, count_records, count_record, compute_statistics, has_category,
}

-- The records of one category.
abbrev pub of_category : EntityCategory → List EntityRecord → ℕ
of_category category es = length (keep (has_category category) es)

-- One record counts once in its category.
count_record-categories :
    (s : RegistryStatistics) (e : EntityRecord)
    → let s' = count_record s e in
      (s'.entity_count ≡ s.entity_count)
      × (s'.destroyed_count ≡ s.destroyed_count)
      × (s'.npc_count ≡ s.npc_count + of_category EntityCategory.npc (e ∷ []))
      × (s'.monster_count ≡ s.monster_count + of_category EntityCategory.monster (e ∷ []))
      × (s'.item_count ≡ s.item_count + of_category EntityCategory.item (e ∷ []))
      × (s'.vehicle_count ≡ s.vehicle_count + of_category EntityCategory.vehicle (e ∷ []))
      × (s'.player_count ≡ s.player_count + of_category EntityCategory.player (e ∷ []))
      × (s'.dynamic_spawn_count
          ≡ s.dynamic_spawn_count
            + length (keep (λ e. is_dynamic e.metadata.spawn_source) (e ∷ [])))
count_record-categories s e = ground arith

-- The counts of the records added to those so far.
count_records-categories :
    (s : RegistryStatistics) (es : List EntityRecord)
    → let s' = count_records s es in
      (s'.entity_count ≡ s.entity_count)
      × (s'.destroyed_count ≡ s.destroyed_count)
      × (s'.npc_count ≡ s.npc_count + of_category EntityCategory.npc es)
      × (s'.monster_count ≡ s.monster_count + of_category EntityCategory.monster es)
      × (s'.item_count ≡ s.item_count + of_category EntityCategory.item es)
      × (s'.vehicle_count ≡ s.vehicle_count + of_category EntityCategory.vehicle es)
      × (s'.player_count ≡ s.player_count + of_category EntityCategory.player es)
      × (s'.dynamic_spawn_count
          ≡ s.dynamic_spawn_count + length (keep (λ e. is_dynamic e.metadata.spawn_source) es))
unfolding count_records
count_records-categories s [] = ground arith
count_records-categories s (e ∷ es) =
    ground (arith, count_record-categories s e, count_records-categories (count_record s e) es)

-- Every record is in at most one of the counted categories.
categories_total :
    (es : List EntityRecord)
    → of_category EntityCategory.npc es
        + of_category EntityCategory.monster es
        + of_category EntityCategory.item es
        + of_category EntityCategory.vehicle es
        + of_category EntityCategory.player es
        + of_category EntityCategory.unknown es
      ≡ length es
categories_total [] = refl
categories_total (e ∷ es) = ground (arith, categories_total es)

-- The statistics count the live entities, and of these the NPCs, monsters, items, vehicles, players and
-- dynamic spawns; with the entities of no named category the categories add up to the total.
pub compute_statistics_lem :
    (r : EntityRegistry)
    → let s = compute_statistics r in
      (s.entity_count ≡ length r.records)
      × (s.destroyed_count ≡ r.destroyed_count)
      × (s.npc_count ≡ of_category EntityCategory.npc r.records)
      × (s.monster_count ≡ of_category EntityCategory.monster r.records)
      × (s.item_count ≡ of_category EntityCategory.item r.records)
      × (s.vehicle_count ≡ of_category EntityCategory.vehicle r.records)
      × (s.player_count ≡ of_category EntityCategory.player r.records)
      × (s.dynamic_spawn_count ≡ length (keep (λ e. is_dynamic e.metadata.spawn_source) r.records))
      × (s.npc_count
            + s.monster_count
            + s.item_count
            + s.vehicle_count
            + s.player_count
            + of_category EntityCategory.unknown r.records
          ≡ s.entity_count)
unfolding compute_statistics
compute_statistics_lem r = ground (
  arith,
  categories_total r.records,
  count_records-categories
      (record {
        entity_count = length r.records;
        npc_count = 0;
        monster_count = 0;
        item_count = 0;
        vehicle_count = 0;
        player_count = 0;
        dynamic_spawn_count = 0;
        destroyed_count = r.destroyed_count;
      })
      r.records,
)
