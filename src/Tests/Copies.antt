-- ===== src/Tests/Copies.antt =====
-- The theorems on snapshots at concrete inputs.
use ashiato.Base.{
  ℕ, ◌≡◌, ◌≢◌, refl, true, false, not, ◌&&◌, List, [], ◌∷◌, some, none, ok, err, logic_error, arith,
}
use mathlib.Core.Path.{subst}
use ashiato.Base.Maps.{same_elements}
use ashiato.EntityStore.{
  Entity, entity_index, alive, rebuild_free_list, rebuild_from, rebuild_slot, slot_is_alive_at,
  slot_index, slot_version, pack,
}
use ashiato.EntityStore.Invariant.{IsValid}
use ashiato.Storage.{Storage, new}
use ashiato.Storage.Copies.{
  clone_excluding, clone_dirty_excluding, clone_compact_filtered, has_excluded_storage_entries,
  any_excluded, is_excluded, copy_entries, copy_entry, copy_compact_tombstones_excluding,
  copy_tombstones, copy_tombstone, kept_entity,
}
use ashiato.Storage.Flags.{has_dirty_entries}
use ashiato.Storage.Laws.Invariant.{IsDense}
use ashiato.Registry.{bumped, find_storage, ComponentRecord}
use ashiato.Snapshots.{
  current_snapshot_excluded_entities, with_jobs, World, Snapshot, DeltaSnapshot,
  make_snapshot_exclusion_mask, exclude_from, exclude_index, exclude, is_known, system_storage,
  make_snapshot_entities, zero_excluded, is_snapshot_excluded_index,
}
use ashiato.Snapshots.Create.{
  create_snapshot, clone_storages, create_delta, dirty_copy, dirty_copies, same_as,
  create_delta_snapshot_of_full, create_delta_snapshot_of_delta,
}
use ashiato.Snapshots.Create.Entities.{create_snapshot_lem}
use ashiato.Snapshots.Tracker.{
  Tracker, full, delta, all_frames, on_registry_dirty_frame, writes_full, is_missing, write_full,
  write_delta, delta_after,
}
use ashiato.Snapshots.Tracker.Chain.{all_frames-baseline, restore_all, token, token_of}
use ashiato.Registry.Catalog.{add_system_tag}
use ashiato.Snapshots.Restore.{
  copy_groups, type_keys_of, restore_snapshot, clones_for_restore, restore_delta_snapshot,
  check_components, destroy_all, destroyed_entities, with_entities, apply_storages,
  restore_internal_bookkeeping_tags, merge_entities, tag_primitives, tag_jobs,
}
use ashiato.Snapshots.Restore.Baseline.{restore_delta_snapshot-once}
use ashiato.Registry.Groups.{ownership_of}
use ashiato.Tests.Storages.{two, two-IsValid}
use ashiato.Tests.Registries.{pair, entity_of, record_for}

some_eq : {a b : Storage ℕ} → some a ≡ some b → a ≡ b
some_eq h = cc

-- The component 2 is the system tag, which the indices 3 and 1 have.
abbrev tag_record : ComponentRecord
tag_record = record (record_for 2 (66 ∷ [])) {
  info = record { size = 0; alignment = 1; trivially_copyable = true; tag = true };
}

abbrev two_tags : Storage ℕ
two_tags = record two {
  values = [];
  info = record { tag = true; trivially_copyable = true; copyable = false };
}

two_tags-IsDense : IsDense two_tags
two_tags-IsDense = record {
  dense_length = two-IsValid.dense.dense_length;
  dense_inside = two-IsValid.dense.dense_inside;
  inverse = two-IsValid.dense.inverse;
  value_length = λ h. cc;
  small = two-IsValid.dense.small;
}

abbrev tagged : World ℕ
tagged = record {
  registry = record pair {
    records = (0, record_for 0 (65 ∷ [])) ∷ (2, tag_record) ∷ [];
    storages = (0, two) ∷ (2, two_tags) ∷ [];
    system_tag = entity_of 2;
  };
  state_token = 7;
  jobs = [];
}

abbrev without_system : Snapshot ℕ
without_system = record {
  entities = 4294967296 ∷ 4294967299 ∷ 4294967298 ∷ 8589934591 ∷ [];
  free_head = 1;
  components =
      (
        0,
        record {
          entity = record { value = 4294967296 };
          name = 65 ∷ [];
          type_key = [];
          info = record { size = 4; alignment = 4; trivially_copyable = true; tag = false };
          fields = [];
          copyable = false;
          primitive = 0;
          singleton = false;
        },
      )
      ∷ (
        2,
        record {
          entity = record { value = 4294967298 };
          name = 66 ∷ [];
          type_key = [];
          info = record { size = 0; alignment = 1; trivially_copyable = true; tag = true };
          fields = [];
          copyable = false;
          primitive = 0;
          singleton = false;
        },
      )
      ∷ [];
  component_names = (65 ∷ [], 0) ∷ (66 ∷ [], 2) ∷ [];
  storages =
      (
        0,
        record {
          dense_indices = [];
          sparse = [];
          dirty = [];
          added = [];
          tombstones = 1 ∷ [];
          tombstone_indices = 0 ∷ [];
          tombstone_positions = [];
          tombstone_entities = 4294967296 ∷ [];
          values = [];
          size = 0;
          capacity = 2;
          dirty_count = 0;
          added_count = 0;
          tombstone_count = 1;
          compact_lookup = true;
          info = record { tag = false; trivially_copyable = true; copyable = true };
        },
      )
      ∷ [];
  groups = [];
  singleton_entity = record { value = 0 };
  primitive_types = [];
  system_tag = record { value = 4294967298 };
  state_token = 7;
}

taken_snapshot : create_snapshot tagged ≡ ok without_system
unfolding create_snapshot clone_storages clone_excluding clone_compact_filtered
    has_excluded_storage_entries any_excluded is_excluded copy_entries copy_entry
    copy_compact_tombstones_excluding copy_tombstones copy_tombstone kept_entity new
    make_snapshot_exclusion_mask exclude_from exclude_index exclude is_known system_storage
    make_snapshot_entities zero_excluded rebuild_free_list rebuild_from rebuild_slot
    slot_is_alive_at slot_index slot_version pack entity_index find_storage
taken_snapshot = refl

tag_storage-IsDense :
    (storage : Storage ℕ)
    → find_storage tagged.registry tagged.registry.system_tag ≡ some storage
    → IsDense storage
unfolding find_storage entity_index
tag_storage-IsDense storage found = subst (λ x. IsDense x) (some_eq found) two_tags-IsDense

create_snapshot_lem_example :
    ((free : List ℕ) × IsValid
        (record { slots = without_system.entities; free_head = without_system.free_head })
        free)
    × ((x : Entity)
        → alive (record { slots = without_system.entities; free_head = without_system.free_head }) x
          ≡ (alive tagged.registry.entity_store x
              && not (is_snapshot_excluded_index tagged.registry (entity_index x))))
    × (without_system.state_token ≡ tagged.state_token)
create_snapshot_lem_example =
    create_snapshot_lem tagged without_system tag_storage-IsDense (omega arith) taken_snapshot

abbrev first_tracker : Tracker ℕ
first_tracker = record {
  writes = true;
  full_snapshot_interval_dirty_frames = 5;
  dirty_frame_count = 0;
  last_full = none;
  last_delta = none;
  next_token = 9;
}

-- A delta in which the entity with index 3 is gone.
abbrev fewer : DeltaSnapshot ℕ
fewer = record {
  entities = 4294967296 ∷ 4294967297 ∷ 4294967298 ∷ 12884901887 ∷ [];
  free_head = 3;
  components = [];
  storages = [];
  has_entities = true;
  baseline_token = 7;
  state_token = 9;
}

abbrev plain_world : World ℕ
plain_world = record { registry = pair; state_token = 7; jobs = [] }

abbrev fewer_world : World ℕ
fewer_world = record {
  registry = record pair {
    entity_store = record {
      slots = 4294967296 ∷ 4294967297 ∷ 4294967298 ∷ 12884901887 ∷ [];
      free_head = 3;
    };
    view_topology_token = 2;
  };
  state_token = 9;
  jobs = [];
}

restores_fewer : restore_delta_snapshot fewer plain_world ≡ ok fewer_world
unfolding restore_delta_snapshot check_components destroy_all destroyed_entities with_entities
    apply_storages restore_internal_bookkeeping_tags merge_entities
    current_snapshot_excluded_entities with_jobs system_storage add_system_tag tag_primitives
    tag_jobs bumped rebuild_free_list rebuild_from rebuild_slot slot_is_alive_at slot_index
    slot_version pack
restores_fewer = refl

tokens_apart : fewer.state_token ≢ fewer.baseline_token
tokens_apart h = omega (arith, h)

restore_delta_snapshot-once_example :
    (plain_world.state_token ≡ fewer.baseline_token)
    × (fewer_world.state_token ≡ fewer.state_token)
    × (restore_delta_snapshot fewer fewer_world ≡ err logic_error)
    × (restore_delta_snapshot fewer fewer_world ≡ err logic_error)
restore_delta_snapshot-once_example =
    restore_delta_snapshot-once fewer fewer plain_world fewer_world tokens_apart refl restores_fewer

-- Registries without storages, in the second of which the entity with index 3 is gone.
abbrev bare : World ℕ
bare = record plain_world {
  registry = record pair {
    storages = [];
    records = (0, record_for 0 (65 ∷ [])) ∷ [];
    names = (65 ∷ [], 0) ∷ [];
  };
}

abbrev bare_fewer : World ℕ
bare_fewer = record plain_world {
  registry = record pair {
    storages = [];
    records = (0, record_for 0 (65 ∷ [])) ∷ [];
    names = (65 ∷ [], 0) ∷ [];
    entity_store = record {
      slots = 4294967296 ∷ 4294967297 ∷ 4294967298 ∷ 12884901887 ∷ [];
      free_head = 3;
    };
  };
}

abbrev bare_snapshot : Snapshot ℕ
bare_snapshot = record {
  entities = 4294967296 ∷ 4294967297 ∷ 4294967298 ∷ 4294967299 ∷ [];
  free_head = 4294967295;
  components =
      (
        0,
        record {
          entity = record { value = 4294967296 };
          name = 65 ∷ [];
          type_key = [];
          info = record { size = 4; alignment = 4; trivially_copyable = true; tag = false };
          fields = [];
          copyable = false;
          primitive = 0;
          singleton = false;
        },
      )
      ∷ [];
  component_names = (65 ∷ [], 0) ∷ [];
  storages = [];
  groups = [];
  singleton_entity = record { value = 0 };
  primitive_types = [];
  system_tag = record { value = 0 };
  state_token = 7;
}

abbrev first_change : DeltaSnapshot ℕ
first_change = record {
  entities = 4294967296 ∷ 4294967297 ∷ 4294967298 ∷ 12884901887 ∷ [];
  free_head = 3;
  components = [];
  storages = [];
  has_entities = true;
  baseline_token = 7;
  state_token = 9;
}

abbrev second_change : DeltaSnapshot ℕ
second_change = record {
  entities = [];
  free_head = 3;
  components = [];
  storages = [];
  has_entities = false;
  baseline_token = 9;
  state_token = 10;
}

three_frames :
    all_frames (bare ∷ bare_fewer ∷ bare_fewer ∷ []) first_tracker
    ≡ ok (full bare_snapshot ∷ delta first_change ∷ delta second_change ∷ [])
unfolding all_frames on_registry_dirty_frame writes_full is_missing write_full write_delta
    delta_after create_delta_snapshot_of_full create_delta dirty_copy dirty_copies same_as
    same_elements clone_dirty_excluding has_dirty_entries create_snapshot clone_storages
    clone_excluding clone_compact_filtered has_excluded_storage_entries any_excluded is_excluded
    copy_entries copy_entry copy_compact_tombstones_excluding copy_tombstones copy_tombstone
    kept_entity new make_snapshot_exclusion_mask exclude_from exclude_index exclude is_known
    system_storage make_snapshot_entities zero_excluded rebuild_free_list rebuild_from rebuild_slot
    slot_is_alive_at slot_index slot_version pack entity_index find_storage
    create_delta_snapshot_of_delta
three_frames = refl

abbrev restored_world : World ℕ
restored_world = record {
  registry = record {
    entity_store = record {
      slots = 4294967296 ∷ 4294967297 ∷ 4294967298 ∷ 12884901887 ∷ [];
      free_head = 3;
    };
    records =
        (
          0,
          record {
            entity = record { value = 4294967296 };
            name = 65 ∷ [];
            type_key = [];
            info = record { size = 4; alignment = 4; trivially_copyable = true; tag = false };
            fields = [];
            copyable = false;
            primitive = 0;
            singleton = false;
          },
        )
        ∷ [];
    names = (65 ∷ [], 0) ∷ [];
    type_keys = [];
    singleton_entity = record { value = 0 };
    primitive_types = [];
    system_tag = record { value = 0 };
    job_tag = record { value = 0 };
    storages = [];
    view_topology_token = 3;
    groups = [];
    next_address = 0;
    owned_component_groups = [];
    deferred_enters = [];
    defer_enters_depth = 0;
  };
  state_token = 9;
  jobs = [];
}

restores_two :
    restore_all (full bare_snapshot ∷ delta first_change ∷ []) plain_world ≡ ok restored_world
unfolding restore_all restore_snapshot clones_for_restore restore_delta_snapshot check_components
    destroy_all destroyed_entities with_entities apply_storages restore_internal_bookkeeping_tags
    merge_entities type_keys_of copy_groups ownership_of current_snapshot_excluded_entities
    with_jobs system_storage add_system_tag tag_primitives tag_jobs bumped rebuild_free_list
    rebuild_from rebuild_slot slot_is_alive_at slot_index slot_version pack
restores_two = refl

nothing_written : (k : ℕ) → token first_tracker ≡ some k → plain_world.state_token ≡ k
unfolding token token_of
nothing_written k h = cc

all_frames-baseline_example : restored_world.state_token ≡ second_change.baseline_token
all_frames-baseline_example =
    all_frames-baseline (bare ∷ bare_fewer ∷ bare_fewer ∷ []) first_tracker
      (full bare_snapshot ∷ delta first_change ∷ []) [] second_change plain_world restored_world
      three_frames nothing_written restores_two
