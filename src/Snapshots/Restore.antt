-- ===== src/Snapshots/Restore.antt =====
-- `Registry::restore_snapshot` and `Registry::restore_delta_snapshot` of src/snapshot.cpp, with
-- `merge_current_system_entities` and `restore_internal_bookkeeping_tags` of src/ashiato.cpp. Where they
-- throw, what they have changed until then is left out, as is the rebinding of the typed components.
pub mod Baseline
use ashiato.Base.{
  ℕ, zero, suc, ◌+◌, Bool, true, false, not, ◌==◌, ◌&&◌, ◌||◌, ltb, leb, if◌then◌else◌, List, [],
  ◌∷◌, Option, some, none, length, set, grow_to, push_back, get_or, Result, ok, err, logic_error,
  throw_if, ◌>>◌, ◌>>=◌,
}
use ashiato.Base.Maps.{find, assign_text}
use ashiato.EntityStore.{Entity, entity_index, slot_index, slot_at, rebuild_free_list}
use ashiato.Storage.{Storage, contains, dense_size, dense_index_at}
use ashiato.Storage.Tombstones.{
  tombstone_entry_count, tombstone_entity_at, has_dirty_tombstone_at_position,
  has_destroy_tombstone_at_position,
}
use ashiato.Storage.Access.{get_dense}
use ashiato.Storage.Insert.{emplace_or_replace_tag, emplace_or_replace_copy}
use ashiato.Storage.Copies.{clone_for_restore}
use ashiato.Registry.{
  Registry, Text, ComponentRecord, GroupRecord, find_storage, storage_for, put_storage,
  bump_view_topology_token,
}
use ashiato.Registry.Groups.{
  rebuild_group_ownership, refresh_group_after_add, remove_from_groups_before_component_removal,
}
use ashiato.Registry.Catalog.{same_flag, add_system_tag, add_job_tag}
use ashiato.Registry.Components.{remove_from, destroy_component}
use ashiato.Snapshots.{World, Snapshot, DeltaSnapshot, lists, current_snapshot_excluded_entities}

unfoldable pub merge_entities : List Entity → List ℕ → List ℕ
merge_entities [] entities = entities
merge_entities (entity ∷ rest) entities =
    merge_entities rest
      (set (grow_to entities (entity_index entity) 0) (entity_index entity) entity.value)

-- The type keys of the records.
unfoldable pub type_keys_of : List (ℕ × ComponentRecord) → List (Text × ℕ) → List (Text × ℕ)
type_keys_of [] keys = keys
type_keys_of ((component, found) ∷ rest) keys =
    type_keys_of rest
      (if length found.type_key == 0 then keys else assign_text found.type_key component keys)

-- Copies of the groups, at new addresses.
unfoldable pub copy_groups : ℕ → List (ℕ × GroupRecord) → List (ℕ × GroupRecord)
copy_groups address [] = []
copy_groups address ((old, group) ∷ rest) = (address, group) ∷ copy_groups (address + 1) rest

unfoldable pub same_component : ComponentRecord → ComponentRecord → Bool
same_component current captured =
    current.entity.value == captured.entity.value
    && current.info.size == captured.info.size
    && current.info.alignment == captured.info.alignment
    && same_flag current.info.trivially_copyable captured.info.trivially_copyable
    && same_flag current.info.tag captured.info.tag
    && same_flag current.singleton captured.singleton

-- The first loop of `restore_delta_snapshot`.
unfoldable pub check_components :
    List (ℕ × ComponentRecord) → List (ℕ × ComponentRecord) → Result (Unit {0})
check_components records [] = ok tt
check_components records ((component, captured) ∷ rest) = elim (find component records) [
  | none ↦ err logic_error
  | some current ↦
      throw_if (not (same_component current captured)) logic_error >> check_components records rest
]

module _ {V : Type 0} where
  unfoldable pub clones_for_restore : List (ℕ × Storage V) → Result (List (ℕ × Storage V))
  clones_for_restore [] = ok []
  clones_for_restore ((component, storage) ∷ rest) = clone_for_restore storage >>= λ copy.
      clones_for_restore rest >>= λ copies. ok ((component, copy) ∷ copies)

  unfoldable pub tag_primitives : List Entity → Registry V → Result (Registry V)
  tag_primitives [] r = ok r
  tag_primitives (primitive ∷ rest) r =
      add_system_tag r primitive >>= λ tagged. tag_primitives rest tagged

  unfoldable pub tag_jobs : List Entity → Registry V → Result (Registry V)
  tag_jobs [] r = ok r
  tag_jobs (job ∷ rest) r =
      add_system_tag r job >>= λ tagged. add_job_tag tagged job >>= λ marked. tag_jobs rest marked

  unfoldable pub restore_internal_bookkeeping_tags : List Entity → Registry V → Result (Registry V)
  restore_internal_bookkeeping_tags jobs r = add_system_tag r r.system_tag >>= λ first.
      add_system_tag first first.job_tag >>= λ second.
      tag_primitives second.primitive_types second >>= λ third. tag_jobs jobs third

  unfoldable pub restore_snapshot : Snapshot V → World V → Result (World V)
  restore_snapshot snapshot w = clones_for_restore snapshot.storages >>= λ storages.
      let r = w.registry in
      let entities = merge_entities (current_snapshot_excluded_entities w) snapshot.entities in
      let restored = rebuild_group_ownership (record r {
        entity_store = rebuild_free_list entities;
        records = snapshot.components;
        names = snapshot.component_names;
        type_keys = type_keys_of snapshot.components [];
        storages = storages;
        groups = copy_groups r.next_address snapshot.groups;
        next_address = r.next_address + length snapshot.groups;
      }) in
      restore_internal_bookkeeping_tags w.jobs (
        bump_view_topology_token (record restored {
          singleton_entity = snapshot.singleton_entity;
          system_tag = snapshot.system_tag;
          primitive_types = snapshot.primitive_types;
        }))
      >>= λ tagged.
          ok (record { registry = tagged; state_token = snapshot.state_token; jobs = w.jobs })

  -- The entities that the tombstones of a storage say were destroyed, from this position on.
  unfoldable pub destroyed_in : Storage V → ℕ → ℕ → List Entity → List Entity
  destroyed_in storage zero position destroyed = destroyed
  destroyed_in storage (suc rounds) position destroyed =
      let entity = tombstone_entity_at storage position in
      destroyed_in storage rounds (position + 1) (
        if has_destroy_tombstone_at_position storage position && not (lists entity destroyed)
        then push_back destroyed entity
        else destroyed)

  unfoldable pub destroyed_entities : List (ℕ × Storage V) → List Entity → List Entity
  destroyed_entities [] destroyed = destroyed
  destroyed_entities ((component, storage) ∷ rest) destroyed =
      destroyed_entities rest (destroyed_in storage (tombstone_entry_count storage) 0 destroyed)

  -- The inner loop over the storages, given by their keys, does for each what a round of `destroy` does.
  unfoldable pub destroy_in : Entity → List (ℕ × Storage V) → Registry V → Result (Registry V)
  destroy_in entity [] r = ok r
  destroy_in entity ((component, storage) ∷ rest) r =
      destroy_component entity component r >>= λ after. destroy_in entity rest after

  unfoldable pub destroy_all : List Entity → Registry V → Result (Registry V)
  destroy_all [] r = ok r
  destroy_all (entity ∷ rest) r = destroy_in entity r.storages r >>= λ after. destroy_all rest after

  unfoldable pub holds_removed : Option (Storage V) → ℕ → Bool
  holds_removed none index = false
  holds_removed (some storage) index = contains storage index

  -- The loop over the tombstones of a delta's storage.
  unfoldable pub apply_removals : Storage V → Entity → ℕ → ℕ → ℕ → Registry V → Result (Registry V)
  apply_removals delta component key zero position r = ok r
  apply_removals delta component key (suc rounds) position r =
      let entity = tombstone_entity_at delta position in
      (if not (has_dirty_tombstone_at_position delta position)
          || has_destroy_tombstone_at_position delta position
        then ok r
        else if not (holds_removed (find_storage r component) (entity_index entity))
        then err logic_error
        else (remove_from_groups_before_component_removal (entity_index entity) key r >>= λ left.
            ok (remove_from left entity component).1))
      >>= λ after. apply_removals delta component key rounds (position + 1) after

  -- Without a value the storage is that of a tag.
  unfoldable pub emplace_copy : Entity → Option V → Storage V → Result (Storage V)
  emplace_copy entity none storage = emplace_or_replace_tag entity storage
  emplace_copy entity (some value) storage = emplace_or_replace_copy entity value storage

  -- The loop over its dense entries.
  unfoldable pub apply_values : Storage V → Entity → ℕ → ℕ → ℕ → Registry V → Result (Registry V)
  apply_values delta component key zero dense r = ok r
  apply_values delta component key (suc rounds) dense r =
      let index = dense_index_at delta dense in
      let slot = slot_at r.entity_store index in
      throw_if (leb (length r.entity_store.slots) index || not (slot_index slot == index))
        logic_error
      >> (storage_for r component >>= λ held.
          emplace_copy (record { value = slot }) (get_dense delta dense) held.0 >>= λ stored.
          refresh_group_after_add index key (put_storage held.1 (entity_index component) stored)
          >>= λ after. apply_values delta component key rounds (dense + 1) after)

  unfoldable pub apply_storages : List (ℕ × Storage V) → Registry V → Result (Registry V)
  apply_storages [] r = ok r
  apply_storages ((key, delta) ∷ rest) r = elim (find key r.records) [
    | none ↦ err logic_error
    | some found ↦
        apply_removals delta found.entity key (tombstone_entry_count delta) 0 r >>= λ bare.
        apply_values delta found.entity key (dense_size delta) 0 bare >>= λ after.
        apply_storages rest after
  ]

  -- The entities of the delta, if it has any.
  unfoldable pub with_entities : DeltaSnapshot V → World V → Registry V
  with_entities snapshot w =
      if snapshot.has_entities
      then record w.registry {
        entity_store =
            rebuild_free_list
              (merge_entities (current_snapshot_excluded_entities w) snapshot.entities);
      }
      else w.registry

  unfoldable pub restore_delta_snapshot : DeltaSnapshot V → World V → Result (World V)
  restore_delta_snapshot snapshot w =
      throw_if (not (w.state_token == snapshot.baseline_token)) logic_error
      >> (check_components w.registry.records snapshot.components
          >> (destroy_all (destroyed_entities snapshot.storages []) (with_entities snapshot w)
              >>= λ bare. apply_storages snapshot.storages bare >>= λ applied.
                  restore_internal_bookkeeping_tags w.jobs (bump_view_topology_token applied)
                  >>= λ tagged. ok (record {
                    registry = tagged;
                    state_token = snapshot.state_token;
                    jobs = w.jobs;
                  })))
