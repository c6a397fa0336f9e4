-- ===== src/Snapshots/Create.antt =====
-- `Registry::create_snapshot` and the two functions `create_delta_snapshot` of src/snapshot.cpp.
pub mod Entities
use ashiato.Base.{
  ℕ, ◌+◌, ◌%◌, ◌^◌, Bool, true, false, not, ◌==◌, ◌&&◌, if◌then◌else◌, List, [], ◌∷◌, Option, some,
  none, length, Result, ok, err, ◌>>=◌,
}
use ashiato.Base.Maps.{find, same_elements}
use ashiato.EntityStore.{Entity, entity_index, rebuild_free_list}
use ashiato.Storage.{Storage}
use ashiato.Storage.Flags.{has_dirty_entries}
use ashiato.Storage.Copies.{clone_excluding, clone_dirty_excluding}
use ashiato.Registry.{Registry, ComponentRecord}
use ashiato.Snapshots.{
  World, Snapshot, DeltaSnapshot, make_snapshot_exclusion_mask, make_snapshot_entities,
}

-- Are the entities those of the baseline?
unfoldable pub same_as : Option (List ℕ) → List ℕ → Bool
same_as none entities = false
same_as (some before) entities = same_elements entities before

module _ {V : Type 0} where
  -- Is this the key of the storage of the system tag?
  abbrev pub of_system_tag : Registry V → ℕ → Bool
  of_system_tag r component =
      not (r.system_tag.value == 0) && component == entity_index r.system_tag

  unfoldable pub clone_storages :
      Registry V → List Bool → List (ℕ × Storage V) → Result (List (ℕ × Storage V))
  clone_storages r excluded [] = ok []
  clone_storages r excluded ((component, storage) ∷ rest) =
      if of_system_tag r component
      then clone_storages r excluded rest
      else (clone_excluding excluded storage >>= λ copy.
          clone_storages r excluded rest >>= λ copies. ok ((component, copy) ∷ copies))

  unfoldable pub create_snapshot : World V → Result (Snapshot V)
  create_snapshot w =
      let r = w.registry in
      let excluded = make_snapshot_exclusion_mask r in
      clone_storages r excluded r.storages >>= λ storages. ok (record {
        entities = (rebuild_free_list (make_snapshot_entities r excluded)).slots;
        free_head = (rebuild_free_list (make_snapshot_entities r excluded)).free_head;
        components = r.records;
        component_names = r.names;
        storages = storages;
        groups = r.groups;
        singleton_entity = r.singleton_entity;
        primitive_types = r.primitive_types;
        system_tag = r.system_tag;
        state_token = w.state_token;
      })

  -- The dirty copy of a storage, where the delta takes one.
  unfoldable pub dirty_copy :
      Registry V → List Bool → ℕ → Storage V → Result (Option (ComponentRecord × Storage V))
  dirty_copy r excluded component storage =
      if of_system_tag r component
      then ok none
      else if not (has_dirty_entries storage)
      then ok none
      else elim (find component r.records) [
        | none ↦ ok none
        | some found ↦ clone_dirty_excluding excluded storage >>= λ dirty.
            ok (if not (has_dirty_entries dirty) then none else some (found, dirty))
      ]

  -- The maps `components_` and `storages_` of the delta.
  unfoldable pub dirty_copies :
      Registry V
      → List Bool
      → List (ℕ × Storage V)
      → Result (List (ℕ × ComponentRecord) × List (ℕ × Storage V))
  dirty_copies r excluded [] = ok ([], [])
  dirty_copies r excluded ((component, storage) ∷ rest) =
      dirty_copy r excluded component storage >>= λ taken.
      dirty_copies r excluded rest >>= λ others. ok (elim taken [
        | none ↦ others
        | some (found, dirty) ↦ ((component, found) ∷ others.0, (component, dirty) ∷ others.1)
      ])

  -- Both functions, where the baseline has these entities, or has none.
  unfoldable pub create_delta : World V → ℕ → Option (List ℕ) → ℕ → ℕ → Result (DeltaSnapshot V)
  create_delta w fresh_token baseline_entities baseline_free_head baseline_token =
      let r = w.registry in
      let excluded = make_snapshot_exclusion_mask r in
      let entities = make_snapshot_entities r excluded in
      let same = same_as baseline_entities entities in
      dirty_copies r excluded r.storages >>= λ copies. ok (record {
        entities = if same then [] else (rebuild_free_list entities).slots;
        free_head = if same then baseline_free_head else (rebuild_free_list entities).free_head;
        components = copies.0;
        storages = copies.1;
        has_entities = not same;
        baseline_token = baseline_token;
        state_token = fresh_token;
      })

  -- The token is that of `next_state_token()`.
  unfoldable pub create_delta_snapshot_of_full : World V → ℕ → Snapshot V → Result (DeltaSnapshot V)
  create_delta_snapshot_of_full w fresh_token baseline =
      create_delta w fresh_token (some baseline.entities) baseline.free_head baseline.state_token

  unfoldable pub create_delta_snapshot_of_delta :
      World V → ℕ → DeltaSnapshot V → Result (DeltaSnapshot V)
  create_delta_snapshot_of_delta w fresh_token baseline =
      create_delta w fresh_token (if baseline.has_entities then some baseline.entities else none)
        baseline.free_head baseline.state_token
