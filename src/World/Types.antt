-- ===== src/World/Types.antt =====
-- world/EntityHandle.h, world/EntityMetadata.h, world/EntityRecord.h. Ids are the numbers that they wrap;
-- a std::string is the list of its bytes.
use stalker_mp.Base.{ℕ, Bool, true, false, ◌&&◌, not, List, [], ◌∷◌, ◌==◌}

pub record EntityHandle : Type 0 where
  pub id : ℕ
  pub generation : ℕ

abbrev pub handle_is_valid : EntityHandle → Bool
handle_is_valid h = not (h.id == 0) && not (h.generation == 0)

pub data EntityCategory : Type 0 where
  unknown npc monster item vehicle player : EntityCategory

pub data EntityRegistrationState : Type 0 where
  constructed registered initialized active pending_removal unregistered : EntityRegistrationState

pub data EntitySpawnSource : Type 0 where
  unknown engine_world dynamic restored : EntitySpawnSource

pub record EntityMetadata : Type 0 where
  pub category : EntityCategory
  pub section : List ℕ
  pub flags : ℕ
  pub creation_tick : ℕ
  pub spawn_source : EntitySpawnSource
  pub state : EntityRegistrationState

pub record EntityRecord : Type 0 where
  pub handle : EntityHandle
  pub name : List ℕ
  pub metadata : EntityMetadata

abbrev pub record_key : EntityRecord → ℕ
record_key e = e.handle.id

-- The numbers of the enumerators.
abbrev pub category_number : EntityCategory → ℕ
category_number EntityCategory.unknown = 0
category_number EntityCategory.npc = 1
category_number EntityCategory.monster = 2
category_number EntityCategory.item = 3
category_number EntityCategory.vehicle = 4
category_number EntityCategory.player = 5

abbrev pub is_dynamic : EntitySpawnSource → Bool
is_dynamic EntitySpawnSource.dynamic = true
is_dynamic _ = false

abbrev pub is_active : EntityRegistrationState → Bool
is_active EntityRegistrationState.active = true
is_active _ = false

-- `==` of strings.
abbrev pub same_text : List ℕ → List ℕ → Bool
same_text [] [] = true
same_text [] (c ∷ cs) = false
same_text (b ∷ bs) [] = false
same_text (b ∷ bs) (c ∷ cs) = b == c && same_text bs cs
