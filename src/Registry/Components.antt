-- ===== src/Registry/Components.antt =====
-- src/ashiato.cpp: adding, removing, reading and marking the components of an entity, and its
-- destruction. These are the instances with `DispatchHooks = false`; the others, and `destroy`, do the
-- same where no hook is subscribed. A returned pointer is the answer whether there is one.
use ashiato.Base.{
  ℕ, Bool, true, false, not, ◌==◌, if◌then◌else◌, List, [], ◌∷◌, Option, some, none, Result, ok,
  err, logic_error, ◌>>=◌,
}
use ashiato.Base.Maps.{find}
use ashiato.EntityStore.{Entity, entity_index, alive, create, retire}
use ashiato.Storage.{Storage, contains}
use ashiato.Storage.Flags.{clear_all_dirty}
use ashiato.Storage.Insert.{emplace_or_replace_tag, emplace_or_replace_bytes}
use ashiato.Storage.Erase.{remove, remove_for_destroy}
use ashiato.Storage.Access.{is_dirty, clear_dirty}
use ashiato.Storage.Deferred.{ThreadState, ensure, write}
use ashiato.Registry.{
  Registry, ComponentRecord, require_component_record, find_storage, storage_for, put_storage,
}
use ashiato.Registry.Groups.{refresh_group_after_add, remove_from_groups_before_component_removal}
use ashiato.Registry.Catalog.{unregister_component_entity}

module _ {V : Type 0} where
  unfoldable pub singleton_entity : Registry V → Result (Entity × Registry V)
  singleton_entity r =
      if r.singleton_entity.value == 0
      then (create r.entity_store >>= λ made.
          ok (made.0, record r { entity_store = made.1; singleton_entity = made.0 }))
      else ok (r.singleton_entity, r)

  -- The end of `add_tag_impl` and of its kin: the new storage is put back, and the groups are told.
  unfoldable pub added_to : Registry V → Entity → Entity → Storage V → Result (Registry V)
  added_to r entity component storage =
      refresh_group_after_add (entity_index entity) (entity_index component)
        (put_storage r (entity_index component) storage)

  unfoldable pub add_tag_impl : Registry V → Entity → Entity → Result (Bool × Registry V)
  add_tag_impl r entity tag = require_component_record r tag >>= λ found.
      if not found.info.tag
      then err logic_error
      else if not (alive r.entity_store entity)
      then ok (false, r)
      else (storage_for r tag >>= λ held. emplace_or_replace_tag entity held.0 >>= λ tagged.
          added_to held.1 entity tag tagged >>= λ after. ok (true, after))

  -- A singleton's value belongs to the singleton entity, and to no group.
  unfoldable pub add_singleton_bytes :
      V → Registry V → Entity → Option V → Result (Bool × Registry V)
  add_singleton_bytes zero_bytes r component value = storage_for r component >>= λ held.
      singleton_entity held.1 >>= λ single.
      emplace_or_replace_bytes zero_bytes single.0 value held.0 >>= λ stored.
      ok (true, put_storage single.1 (entity_index component) stored)

  unfoldable pub add_component_bytes :
      V → Registry V → Entity → Entity → Option V → Result (Bool × Registry V)
  add_component_bytes zero_bytes r entity component value =
      require_component_record r component >>= λ found.
      if found.info.tag
      then err logic_error
      else if found.singleton
      then add_singleton_bytes zero_bytes r component value
      else if not (alive r.entity_store entity)
      then ok (false, r)
      else (storage_for r component >>= λ held.
          emplace_or_replace_bytes zero_bytes entity value held.0 >>= λ stored.
          added_to held.1 entity component stored >>= λ after. ok (true, after))

  unfoldable pub ensure_singleton :
      V → ThreadState → Registry V → Entity → Result (Bool × ThreadState × Registry V)
  ensure_singleton zero_bytes t r component = storage_for r component >>= λ held.
      singleton_entity held.1 >>= λ single.
      ensure zero_bytes (entity_index component) single.0 t held.0 >>= λ stored.
      ok (true, stored.0, put_storage single.1 (entity_index component) stored.1)

  unfoldable pub ensure_component :
      V → ThreadState → Registry V → Entity → Entity → Result (Bool × ThreadState × Registry V)
  ensure_component zero_bytes t r entity component =
      require_component_record r component >>= λ found.
      if found.info.tag
      then err logic_error
      else if found.singleton
      then ensure_singleton zero_bytes t r component
      else if not (alive r.entity_store entity)
      then ok (false, t, r)
      else (storage_for r component >>= λ held.
          ensure zero_bytes (entity_index component) entity t held.0 >>= λ stored.
          added_to held.1 entity component stored.1 >>= λ after. ok (true, stored.0, after))

  -- `found->remove(entity)`, on the storage as the groups have left it.
  unfoldable pub remove_from : Registry V → Entity → Entity → Bool × Registry V
  remove_from r entity component = elim (find_storage r component) [
    | none ↦ (false, r)
    | some storage ↦ (
      (remove entity storage).0,
      put_storage r (entity_index component) (remove entity storage).1,
    )
  ]

  unfoldable pub remove_component : Registry V → Entity → Entity → Result (Bool × Registry V)
  remove_component r entity component = require_component_record r component >>= λ found.
      if found.singleton
      then ok (false, r)
      else if not (alive r.entity_store entity)
      then ok (false, r)
      else elim (find_storage r component) [
        | none ↦ ok (false, r)
        | some storage ↦
            if not (contains storage (entity_index entity))
            then ok (false, r)
            else (remove_from_groups_before_component_removal (entity_index entity)
                  (entity_index component) r
                >>= λ left. ok (remove_from left entity component))
      ]

  -- The entity whose component is meant.
  abbrev pub target_entity : Registry V → ComponentRecord → Entity → Entity
  target_entity r found entity = if found.singleton then r.singleton_entity else entity

  unfoldable pub write_component :
      ThreadState → Registry V → Entity → Entity → Result (Option V × ThreadState × Registry V)
  write_component t r entity component = require_component_record r component >>= λ found.
      if found.info.tag
      then err logic_error
      else if not (alive r.entity_store (target_entity r found entity))
      then ok (none, t, r)
      else elim (find_storage r component) [
        | none ↦ ok (none, t, r)
        | some storage ↦
            let (value, t', storage') =
              write (entity_index component) (entity_index (target_entity r found entity)) t
                storage in
            ok (value, t', put_storage r (entity_index component) storage')
      ]

  unfoldable pub has : Registry V → Entity → Entity → Result Bool
  has r entity component = require_component_record r component >>= λ found.
      if not found.info.tag
      then err logic_error
      else if not (alive r.entity_store entity)
      then ok false
      else elim (find_storage r component) [
        | none ↦ ok false
        | some storage ↦ ok (contains storage (entity_index entity))
      ]

  unfoldable pub dirty_clear : Registry V → Entity → Entity → Result (Bool × Registry V)
  dirty_clear r entity component = require_component_record r component >>= λ found.
      if not (alive r.entity_store (target_entity r found entity))
      then ok (false, r)
      else elim (find_storage r component) [
        | none ↦ ok (false, r)
        | some storage ↦
            let (was, storage') =
              clear_dirty (entity_index (target_entity r found entity)) storage in
            ok (was, put_storage r (entity_index component) storage')
      ]

  unfoldable pub dirty_is : Registry V → Entity → Entity → Result Bool
  dirty_is r entity component = require_component_record r component >>= λ found.
      if not (alive r.entity_store (target_entity r found entity))
      then ok false
      else elim (find_storage r component) [
        | none ↦ ok false
        | some storage ↦ ok (is_dirty storage (entity_index (target_entity r found entity)))
      ]

  unfoldable pub dirty_clear_all : Registry V → Entity → Result (Registry V)
  dirty_clear_all r component = require_component_record r component >>= λ found.
      elim (find_storage r component) [
        | none ↦ ok r
        | some storage ↦ ok (put_storage r (entity_index component) (clear_all_dirty storage))
      ]

  unfoldable pub all_cleared : List (ℕ × Storage V) → List (ℕ × Storage V)
  all_cleared [] = []
  all_cleared ((component, storage) ∷ rest) =
      (component, clear_all_dirty storage) ∷ all_cleared rest

  unfoldable pub clear_all_dirty_entries : Registry V → Registry V
  clear_all_dirty_entries r = record r { storages = all_cleared r.storages }

  -- `components_to_remove`
  unfoldable pub components_with : ℕ → List (ℕ × Storage V) → List ℕ
  components_with index [] = []
  components_with index ((component, storage) ∷ rest) =
      let others = components_with index rest in
      if contains storage index then component ∷ others else others

  -- One round of the loop over them.
  unfoldable pub destroy_component : Entity → ℕ → Registry V → Result (Registry V)
  destroy_component entity component r = elim (find component r.storages) [
    | none ↦ ok r
    | some storage ↦
        if not (contains storage (entity_index entity))
        then ok r
        else (remove_from_groups_before_component_removal (entity_index entity) component r
            >>= λ left. elim (find component left.storages) [
              | none ↦ ok left
              | some held ↦ ok (put_storage left component (remove_for_destroy entity held))
            ])
  ]

  unfoldable pub destroy_components : Entity → List ℕ → Registry V → Result (Registry V)
  destroy_components entity [] r = ok r
  destroy_components entity (component ∷ rest) r =
      destroy_component entity component r >>= λ after. destroy_components entity rest after

  unfoldable pub destroy : Registry V → Entity → Result (Bool × Registry V)
  destroy r entity =
      if not (alive r.entity_store entity)
      then ok (false, r)
      else (destroy_components entity (components_with (entity_index entity) r.storages) r
          >>= λ bare.
              let forgotten = unregister_component_entity bare entity in
              ok (true, record forgotten { entity_store = retire entity forgotten.entity_store }))
