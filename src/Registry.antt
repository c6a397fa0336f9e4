-- ===== src/Registry.antt =====
-- `Registry` of include/ashiato/ashiato.hpp and src/ashiato.cpp: its state, and how a component's
-- record and storage are found. Left out of the state are the typed bindings (a cache that the
-- templates keep), the subscribed hooks and the jobs. The runtime access checks are those of a build with
-- ASHIATO_RUNTIME_REGISTRY_ACCESS_CHECKING off, where they do nothing.
pub mod Catalog
pub mod Groups
pub mod Hooks
pub mod Components
pub mod Packing
use ashiato.Base.{
  ℕ, ◌+◌, ◌%◌, ◌^◌, Bool, true, false, not, ◌==◌, if◌then◌else◌, List, [], ◌∷◌, Option, some, none,
  get_or, Result, ok, err, logic_error, throw_if, ◌>>◌, ◌>>=◌, length,
}
use ashiato.Base.Maps.{find, assign}
use ashiato.EntityStore.{Entity, EntityStore, entity_index, alive, slot_at}
use ashiato.Storage.{Storage, Info}
use ashiato.Storage as S

-- `std::string`, by its bytes
abbrev pub Text : Type 0
Text = List ℕ

pub record ComponentInfo : Type 0 where
  pub size : ℕ
  pub alignment : ℕ
  pub trivially_copyable : Bool
  pub tag : Bool

pub record ComponentField : Type 0 where
  pub name : Text
  pub offset : ℕ
  pub type : Entity
  pub count : ℕ

-- `copyable` is `lifecycle.copy_construct != nullptr`.
pub record ComponentRecord : Type 0 where
  pub entity : Entity
  pub name : Text
  pub type_key : Text
  pub info : ComponentInfo
  pub fields : List ComponentField
  pub copyable : Bool
  pub primitive : ℕ
  pub singleton : Bool

pub record GroupRecord : Type 0 where
  pub owned : List ℕ
  pub size : ℕ

-- A group is known by its address; the addresses that were given are those below `next_address`.
-- The values of all components have the one type `V` of bytes.
pub record Registry (V : Type 0) : Type 0 where
  pub entity_store : EntityStore
  pub records : List (ℕ × ComponentRecord)
  pub names : List (Text × ℕ)
  pub type_keys : List (Text × ℕ)
  pub singleton_entity : Entity
  pub primitive_types : List Entity
  pub system_tag : Entity
  pub job_tag : Entity
  pub storages : List (ℕ × Storage V)
  pub view_topology_token : ℕ
  pub groups : List (ℕ × GroupRecord)
  pub next_address : ℕ
  pub owned_component_groups : List (ℕ × ℕ)
  pub deferred_enters : List (ℕ × ℕ)
  pub defer_enters_depth : ℕ

-- What the storage takes over from the record.
abbrev pub storage_info : ComponentRecord → Info
storage_info record_of = record {
  tag = record_of.info.tag;
  trivially_copyable = record_of.info.trivially_copyable;
  copyable = record_of.copyable;
}

-- The test of the record's entity, after that of its slot.
unfoldable pub same_entity : Entity → Option ComponentRecord → Option ComponentRecord
same_entity component none = none
same_entity component (some found) =
    if found.entity.value == component.value then some found else none

-- 64 bits, and 0 is skipped.
unfoldable pub bumped : ℕ → ℕ
bumped token = let next = (token + 1) % 2 ^ 64 in if next == 0 then 1 else next

module _ {V : Type 0} where
  -- `Entity{entity_store_.slots[component]}`
  abbrev pub component_entity : Registry V → ℕ → Entity
  component_entity r component = record { value = slot_at r.entity_store component }

  unfoldable pub find_component_record : Registry V → Entity → Option ComponentRecord
  find_component_record r component =
      if not (alive r.entity_store component)
      then none
      else same_entity component (find (entity_index component) r.records)

  unfoldable pub require_component_record : Registry V → Entity → Result ComponentRecord
  require_component_record r component = elim (find_component_record r component) [
    | none ↦ err logic_error
    | some found ↦ ok found
  ]

  unfoldable pub find_storage : Registry V → Entity → Option (Storage V)
  find_storage r component = find (entity_index component) r.storages

  abbrev pub bump_view_topology_token : Registry V → Registry V
  bump_view_topology_token r = record r { view_topology_token = bumped r.view_topology_token }

  -- `storage_registry_.storages[component] = storage`
  abbrev pub put_storage : Registry V → ℕ → Storage V → Registry V
  put_storage r component storage = record r { storages = assign component storage r.storages }

  -- The registry with the storage in it, made if it is missing, and the storage.
  unfoldable pub storage_for : Registry V → Entity → Result (Storage V × Registry V)
  storage_for r component = require_component_record r component >>= λ record_of.
      elim (find (entity_index component) r.storages) [
        | some storage ↦ ok (storage, r)
        | none ↦ ok (
          S.new (storage_info record_of),
          bump_view_topology_token
              (put_storage r (entity_index component) (S.new (storage_info record_of))),
        )
      ]
