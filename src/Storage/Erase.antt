-- ===== src/Storage/Erase.antt =====
-- src/storage.cpp: taking a component away. The last dense entry moves into the gap.
use ashiato.Base.{
  ℕ, ◌+◌, ◌-◌, Bool, true, false, not, ◌==◌, if◌then◌else◌, List, [], get_or, get_elem?, set,
  pop_back, fill, none, some,
}
use ashiato.EntityStore.{Entity, entity_index}
use ashiato.Storage.{
  Storage, npos, no_tombstone, tombstone_dirty, tombstone_destroy_entity, sparse_at, dense_index_at,
  contains,
}
use ashiato.Storage.Flags.{clear_dirty_dense, clear_added_dense}
use ashiato.Storage.Tombstones.{mark_tombstone}

-- `memcpy(target, last, size)`, or destroy, move and destroy.
unfoldable pub move_value {ℓ} : {V : Type ℓ} → ℕ → ℕ → List V → List V
move_value target last values = elim (get_elem? values last) [
  | none ↦ values
  | some v ↦ set values target v
]

module _ {V : Type 0} where
  -- The branch `dense != last_dense`.
  unfoldable pub fill_gap : ℕ → ℕ → Storage V → Storage V
  fill_gap dense last_dense s = record s {
    values = if s.info.tag then s.values else move_value dense last_dense s.values;
    dense_indices = set s.dense_indices dense (dense_index_at s last_dense);
    dirty = set s.dirty dense (get_or s.dirty last_dense 0);
    added = set s.added dense (get_or s.added last_dense 0);
    sparse = set s.sparse (dense_index_at s last_dense) dense;
  }

  -- The end of `erase_at`: the last entry goes, and the index reads `npos`.
  unfoldable pub drop_last : ℕ → Storage V → Storage V
  drop_last removed_index s = record s {
    values = if s.info.tag then s.values else pop_back s.values;
    sparse = set s.sparse removed_index npos;
    dense_indices = pop_back s.dense_indices;
    dirty = pop_back s.dirty;
    added = pop_back s.added;
    size = s.size - 1;
  }

  unfoldable pub erase_at : ℕ → Storage V → Storage V
  erase_at dense s =
      let cleared = clear_added_dense dense (clear_dirty_dense dense s) in
      drop_last (dense_index_at s dense)
        (if not (dense == s.size - 1) then fill_gap dense (s.size - 1) cleared else cleared)

  unfoldable pub remove : Entity → Storage V → Bool × Storage V
  remove entity s =
      if contains s (entity_index entity)
      then (
        true,
        mark_tombstone entity tombstone_dirty (erase_at (sparse_at s (entity_index entity)) s),
      )
      else (false, s)

  unfoldable pub remove_index : ℕ → Storage V → Storage V
  remove_index index s = (remove (record { value = index }) s).1

  unfoldable pub remove_for_destroy : Entity → Storage V → Storage V
  remove_for_destroy entity s =
      if contains s (entity_index entity)
      then mark_tombstone entity (tombstone_dirty + tombstone_destroy_entity)
          (erase_at (sparse_at s (entity_index entity)) s)
      else s

  -- Every value is destroyed; the vectors indexed by entity keep their length.
  unfoldable pub clear : Storage V → Storage V
  clear s = record s {
    values = [];
    size = 0;
    dense_indices = [];
    dirty = [];
    added = [];
    sparse = fill s.sparse npos;
    tombstones = fill s.tombstones no_tombstone;
    tombstone_entities = fill s.tombstone_entities 0;
    tombstone_positions = fill s.tombstone_positions npos;
    tombstone_indices = [];
    dirty_count = 0;
    added_count = 0;
    tombstone_count = 0;
  }
