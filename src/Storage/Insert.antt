-- ===== src/Storage/Insert.antt =====
-- src/storage.cpp and include/ashiato/ashiato.hpp: adding a component to an entity, or replacing
-- the value that it has. A constructor of the value that throws is not modelled, nor is the
-- pointer to the value that most of these return: `get` reads what it points to.
use ashiato.Base.{
  ℕ, ◌+◌, ◌*◌, max, Bool, not, ◌==◌, leb, if◌then◌else◌, set, push_back, Option, none, some, Result,
  ok, err, logic_error, throw_if, ◌>>◌,
}
use ashiato.EntityStore.{Entity, entity_index}
use ashiato.Storage.{Storage, Info, sparse_at, contains}
use ashiato.Storage.Flags.{mark_dirty_dense}
use ashiato.Storage.Tombstones.{ensure_sparse, clear_tombstone_for_entity}

-- `assign_bytes`: a null pointer stands for zero bytes.
unfoldable pub assigned {ℓ} : {V : Type ℓ} → V → Option V → V
assigned zero_bytes none = zero_bytes
assigned zero_bytes (some v) = v

-- The test of `construct_copy` and `replace_copy` before they copy a value.
unfoldable pub require_copyable : Info → Result (Unit {0})
require_copyable info =
    if info.tag
    then ok tt
    else if info.trivially_copyable
    then ok tt
    else throw_if (not info.copyable) logic_error

module _ {V : Type 0} where
  -- Reallocation moves every value, so `values` stays.
  unfoldable pub ensure_capacity : ℕ → Storage V → Storage V
  ensure_capacity required s =
      if leb required s.capacity
      then s
      else record s { capacity = max required (if s.capacity == 0 then 8 else s.capacity * 2) }

  -- The `reserve` calls leave the other vectors as they are.
  unfoldable pub ensure_insert_capacity : ℕ → Storage V → Storage V
  ensure_insert_capacity required s = ensure_capacity required s

  -- The pushes at the end of `commit_insert_metadata`.
  unfoldable pub push_entry : ℕ → Storage V → Storage V
  push_entry index s = record s {
    dense_indices = push_back s.dense_indices index;
    dirty = push_back s.dirty 1;
    added = push_back s.added 1;
    sparse = set s.sparse index s.size;
    dirty_count = s.dirty_count + 1;
    added_count = s.added_count + 1;
    size = s.size + 1;
  }

  unfoldable pub commit_insert_metadata : Entity → Storage V → Storage V
  commit_insert_metadata entity s =
      push_entry (entity_index entity) (clear_tombstone_for_entity entity s)

  -- The construction of a value at `data_ + size_ * info_.size`.
  unfoldable pub construct_value : V → Storage V → Storage V
  construct_value v s = record s { values = push_back s.values v }

  -- `ensure_sparse(index); ensure_insert_capacity(size_ + 1);`
  unfoldable pub make_room : Entity → Storage V → Storage V
  make_room entity s = ensure_insert_capacity (s.size + 1) (ensure_sparse (entity_index entity) s)

  -- A new entry with a value.
  unfoldable pub insert_value : Entity → V → Storage V → Storage V
  insert_value entity v s = commit_insert_metadata entity (construct_value v (make_room entity s))

  -- A new value for an entry that is there.
  unfoldable pub replace_value : Entity → V → Storage V → Storage V
  replace_value entity v s =
      mark_dirty_dense (sparse_at s (entity_index entity))
        (record s { values = set s.values (sparse_at s (entity_index entity)) v })

  unfoldable pub emplace_or_replace_tag : Entity → Storage V → Result (Storage V)
  emplace_or_replace_tag entity s =
      if not s.info.tag
      then err logic_error
      else if contains s (entity_index entity)
      then ok (mark_dirty_dense (sparse_at s (entity_index entity)) s)
      else ok (commit_insert_metadata entity (make_room entity s))

  -- `type_matches` is the test of `validate_type` on the size and the alignment of `T`.
  unfoldable pub emplace_or_replace : Bool → Entity → V → Storage V → Result (Storage V)
  emplace_or_replace type_matches entity v s =
      if s.info.tag
      then err logic_error
      else if not type_matches
      then err logic_error
      else if contains s (entity_index entity)
      then ok (replace_value entity v s)
      else ok (insert_value entity v s)

  unfoldable pub emplace_or_replace_bytes : V → Entity → Option V → Storage V → Result (Storage V)
  emplace_or_replace_bytes zero_bytes entity value s =
      if s.info.tag
      then err logic_error
      else if not s.info.trivially_copyable
      then err logic_error
      else if contains s (entity_index entity)
      then ok (replace_value entity (assigned zero_bytes value) s)
      else ok (insert_value entity (assigned zero_bytes value) s)

  unfoldable pub emplace_or_replace_copy : Entity → V → Storage V → Result (Storage V)
  emplace_or_replace_copy entity v s =
      if s.info.tag
      then emplace_or_replace_tag entity s
      else if contains s (entity_index entity)
      then require_copyable s.info >> ok (replace_value entity v s)
      else require_copyable s.info >> ok (insert_value entity v s)
