-- ===== src/World/Registry/Queries.antt =====
-- The scans of world/EntityRegistry.cpp: lookups by name, category and section, visitors, statistics and
-- the integrity report. A visitor is a number, 0 the empty function.
use stalker_mp.Base.{
  ℕ, ◌+◌, Bool, true, false, ◌&&◌, ◌||◌, List, [], ◌∷◌, ◌++◌, map, Option, none, some, length, keep,
  ltb, ◌==◌, if◌then◌else◌,
}
use stalker_mp.Keyed.{Index, find_index}
use stalker_mp.World.Types.{
  EntityHandle, EntityRecord, EntityCategory, category_number, is_dynamic, is_active, same_text,
}
use stalker_mp.World.Registry.{EntityRegistry, Event, tells}

unfoldable pub first_named : List ℕ → List EntityRecord → Option EntityRecord
first_named name [] = none
first_named name (e ∷ es) = if same_text e.name name then some e else first_named name es

unfoldable pub find_by_name : EntityRegistry → List ℕ → Option EntityRecord
unfolding first_named
find_by_name r name = first_named name r.records

abbrev pub has_category : EntityCategory → EntityRecord → Bool
has_category category e = category_number e.metadata.category == category_number category

unfoldable pub find_by_type : EntityRegistry → EntityCategory → List EntityHandle
find_by_type r category = map (λ e. e.handle) (keep (has_category category) r.records)

unfoldable pub find_by_section : EntityRegistry → List ℕ → List EntityHandle
find_by_section r section =
    map (λ e. e.handle) (keep (λ e. same_text e.metadata.section section) r.records)

abbrev pub visit : ℕ → List EntityRecord → List Event
visit visitor es = if visitor == 0 then [] else map (tells visitor) es

unfoldable pub for_each : EntityRegistry → ℕ → List Event
for_each r visitor = visit visitor r.records

unfoldable pub for_each_of_type : EntityRegistry → EntityCategory → ℕ → List Event
for_each_of_type r category visitor = visit visitor (keep (has_category category) r.records)

unfoldable pub for_each_active : EntityRegistry → ℕ → List Event
for_each_active r visitor = visit visitor (keep (λ e. is_active e.metadata.state) r.records)

pub record RegistryStatistics : Type 0 where
  pub entity_count : ℕ
  pub npc_count : ℕ
  pub monster_count : ℕ
  pub item_count : ℕ
  pub vehicle_count : ℕ
  pub player_count : ℕ
  pub dynamic_spawn_count : ℕ
  pub destroyed_count : ℕ

-- The switch over the category of one record.
abbrev pub count_category : RegistryStatistics → EntityCategory → RegistryStatistics
count_category s EntityCategory.npc = record s { npc_count = s.npc_count + 1 }
count_category s EntityCategory.monster = record s { monster_count = s.monster_count + 1 }
count_category s EntityCategory.item = record s { item_count = s.item_count + 1 }
count_category s EntityCategory.vehicle = record s { vehicle_count = s.vehicle_count + 1 }
count_category s EntityCategory.player = record s { player_count = s.player_count + 1 }
count_category s EntityCategory.unknown = s

abbrev pub count_record : RegistryStatistics → EntityRecord → RegistryStatistics
count_record s e =
    let s' = count_category s e.metadata.category in
    if is_dynamic e.metadata.spawn_source
    then record s' { dynamic_spawn_count = s'.dynamic_spawn_count + 1 }
    else s'

unfoldable pub count_records : RegistryStatistics → List EntityRecord → RegistryStatistics
count_records s [] = s
count_records s (e ∷ es) = count_records (count_record s e) es

unfoldable pub compute_statistics : EntityRegistry → RegistryStatistics
unfolding count_records
compute_statistics r =
    count_records
      (record {
        entity_count = length r.records;
        npc_count = 0;
        monster_count = 0;
        item_count = 0;
        vehicle_count = 0;
        player_count = 0;
        dynamic_spawn_count = 0;
        destroyed_count = r.destroyed_count;
      })
      r.records

pub record RegistryIntegrityReport : Type 0 where
  pub duplicate_ids : List ℕ
  pub out_of_order : List ℕ
  pub invalid_records : List ℕ
  pub generation_mismatches : List ℕ

abbrev pub is_nil : List ℕ → Bool
is_nil [] = true
is_nil (x ∷ xs) = false

abbrev pub is_healthy : RegistryIntegrityReport → Bool
is_healthy r =
    is_nil r.duplicate_ids
    && is_nil r.out_of_order
    && is_nil r.invalid_records
    && is_nil r.generation_mismatches

-- `push_back` of the id when a test holds.
abbrev pub push_if : Bool → ℕ → List ℕ → List ℕ
push_if b id ids = if b then ids ++ id ∷ [] else ids

abbrev pub is_mismatched : Index → EntityRecord → Bool
is_mismatched m e = elim (find_index e.handle.id m) [
  | none ↦ true
  | some g ↦ ltb g e.handle.generation
]

-- `previous` is the id of the record before; `none` before the first.
abbrev pub is_duplicate : Option ℕ → ℕ → Bool
is_duplicate none id = false
is_duplicate (some previous) id = id == previous

abbrev pub is_out_of_order : Option ℕ → ℕ → Bool
is_out_of_order none id = false
is_out_of_order (some previous) id = if id == previous then false else ltb id previous

unfoldable pub inspect :
    Index → Option ℕ → RegistryIntegrityReport → List EntityRecord → RegistryIntegrityReport
inspect m previous report [] = report
inspect m previous report (e ∷ es) =
    inspect m (some e.handle.id)
      (record {
        duplicate_ids =
            push_if (is_duplicate previous e.handle.id) e.handle.id report.duplicate_ids;
        out_of_order =
            push_if (is_out_of_order previous e.handle.id) e.handle.id report.out_of_order;
        invalid_records =
            push_if (e.handle.id == 0 || e.handle.generation == 0) e.handle.id
              report.invalid_records;
        generation_mismatches =
            push_if (is_mismatched m e) e.handle.id report.generation_mismatches;
      })
      es

unfoldable pub validate_integrity : EntityRegistry → RegistryIntegrityReport
unfolding inspect
validate_integrity r =
    inspect r.generation_by_id none
      (record {
        duplicate_ids = [];
        out_of_order = [];
        invalid_records = [];
        generation_mismatches = [];
      })
      r.records
