-- ===== src/Snapshots.antt =====
-- src/snapshot.cpp and the snapshot functions of src/ashiato.cpp: what a snapshot holds, and which
-- entities and tombstones it leaves out.
pub mod Broadcast
pub mod Create
pub mod Frames
pub mod Restore
pub mod Tracker
use ashiato.Base.{
  ℕ, zero, suc, ◌+◌, ◌%◌, ◌^◌, Bool, true, false, not, ◌==◌, ◌&&◌, ◌||◌, leb, if◌then◌else◌, List,
  [], ◌∷◌, Option, some, none, length, set, get_or, replicate, push_back,
}
use ashiato.Base.Maps.{find}
use ashiato.EntityStore.{Entity, entity_index, alive, slot_at}
use ashiato.Storage.{Storage, contains, dense_index_at}
use ashiato.Registry.{Registry, Text, ComponentRecord, GroupRecord, find_storage}

-- The registry with what a snapshot reads beside it: the token of its state, and the entities of
-- `job_registry_.jobs`.
pub record World (V : Type 0) : Type 0 where
  pub registry : Registry V
  pub state_token : ℕ
  pub jobs : List Entity

-- The list of typed components is left out, as in the registry.
pub record Snapshot (V : Type 0) : Type 0 where
  pub entities : List ℕ
  pub free_head : ℕ
  pub components : List (ℕ × ComponentRecord)
  pub component_names : List (Text × ℕ)
  pub storages : List (ℕ × Storage V)
  pub groups : List (ℕ × GroupRecord)
  pub singleton_entity : Entity
  pub primitive_types : List Entity
  pub system_tag : Entity
  pub state_token : ℕ

pub record DeltaSnapshot (V : Type 0) : Type 0 where
  pub entities : List ℕ
  pub free_head : ℕ
  pub components : List (ℕ × ComponentRecord)
  pub storages : List (ℕ × Storage V)
  pub has_entities : Bool
  pub baseline_token : ℕ
  pub state_token : ℕ

unfoldable pub is_known : Option ComponentRecord → Bool
is_known none = false
is_known (some found) = true

-- `excluded[index] = true`, in a vector that is made when it is first needed.
unfoldable pub exclude : ℕ → ℕ → List Bool → List Bool
exclude index slots excluded =
    set (if length excluded == 0 then replicate slots false else excluded) index true

-- The loop of `make_snapshot_entities`
unfoldable pub zero_excluded : List Bool → List ℕ → List ℕ
zero_excluded [] entities = entities
zero_excluded (excluded ∷ rest) [] = []
zero_excluded (excluded ∷ rest) (slot ∷ slots) =
    (if excluded then 0 else slot) ∷ zero_excluded rest slots

-- Is the entity in the list?
abbrev pub lists : Entity → List Entity → Bool
lists entity [] = false
lists entity (other ∷ rest) = other.value == entity.value || lists entity rest

module _ {V : Type 0} where
  -- The storage of the system tag.
  unfoldable pub system_storage : Registry V → Option (Storage V)
  system_storage r =
      let found = find_storage r r.system_tag in if r.system_tag.value == 0 then none else found

  unfoldable pub holds : Option (Storage V) → ℕ → Bool
  holds none index = false
  holds (some storage) index = contains storage index

  unfoldable pub is_snapshot_excluded_index : Registry V → ℕ → Bool
  is_snapshot_excluded_index r index =
      if r.system_tag.value == 0 || is_known (find index r.records)
      then false
      else holds (find_storage r r.system_tag) index

  -- One round of the loop of `make_snapshot_exclusion_mask`.
  unfoldable pub exclude_index : Registry V → ℕ → List Bool → List Bool
  exclude_index r index excluded =
      if leb (length r.entity_store.slots) index || is_known (find index r.records)
      then excluded
      else exclude index (length r.entity_store.slots) excluded

  unfoldable pub exclude_from : Registry V → Storage V → ℕ → ℕ → List Bool → List Bool
  exclude_from r storage zero dense excluded = excluded
  exclude_from r storage (suc rounds) dense excluded =
      exclude_from r storage rounds (dense + 1)
        (exclude_index r (dense_index_at storage dense) excluded)

  unfoldable pub make_snapshot_exclusion_mask : Registry V → List Bool
  make_snapshot_exclusion_mask r = elim (system_storage r) [
    | none ↦ []
    | some storage ↦ exclude_from r storage storage.size 0 []
  ]

  unfoldable pub make_snapshot_entities : Registry V → List Bool → List ℕ
  make_snapshot_entities r excluded = zero_excluded excluded r.entity_store.slots

  -- The loop of `current_snapshot_excluded_entities` over the system entities, and that over the jobs.
  unfoldable pub system_entities : Registry V → Storage V → ℕ → ℕ → List Entity
  system_entities r storage zero dense = []
  system_entities r storage (suc rounds) dense =
      let index = dense_index_at storage dense in
      let others = system_entities r storage rounds (dense + 1) in
      if is_snapshot_excluded_index r index && not (leb (length r.entity_store.slots) index)
      then record { value = slot_at r.entity_store index } ∷ others
      else others

  unfoldable pub with_jobs : Registry V → List Entity → List Entity → List Entity
  with_jobs r [] entities = entities
  with_jobs r (job ∷ rest) entities = with_jobs r rest (
      if alive r.entity_store job && not (lists job entities)
      then push_back entities job
      else entities)

  unfoldable pub current_snapshot_excluded_entities : World V → List Entity
  current_snapshot_excluded_entities w =
      with_jobs w.registry w.jobs (elim (system_storage w.registry) [
        | none ↦ []
        | some storage ↦ system_entities w.registry storage storage.size 0
      ])
