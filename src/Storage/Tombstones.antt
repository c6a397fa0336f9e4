-- ===== src/Storage/Tombstones.antt =====
-- src/storage.cpp: the tombstones that record which entities have lost the component.
use ashiato.Base.{
  ℕ, ◌+◌, ◌-◌, ◌/◌, ◌%◌, Bool, ◌||◌, ◌&&◌, not, ◌==◌, ltb, leb, if◌then◌else◌, length, get_or, set,
  push_back, pop_back, grow_to, resize,
}
use ashiato.EntityStore.{Entity, entity_index}
use ashiato.Storage.{Storage, npos, no_tombstone}

-- `flags & tombstone_destroy_entity` and `flags & tombstone_dirty`
unfoldable pub has_destroy_flag : ℕ → Bool
has_destroy_flag flags = not (flags / 2 % 2 == 0)

unfoldable pub has_dirty_flag : ℕ → Bool
has_dirty_flag flags = not (flags % 2 == 0)

module _ {V : Type 0} where
  -- `tombstones_[index]`
  abbrev pub tombstone_at : Storage V → ℕ → ℕ
  tombstone_at s index = get_or s.tombstones index no_tombstone

  abbrev pub position_of : Storage V → ℕ → ℕ
  position_of s index = get_or s.tombstone_positions index npos

  unfoldable pub ensure_sparse : ℕ → Storage V → Storage V
  ensure_sparse index s = record s {
    sparse = grow_to s.sparse index npos;
    tombstones = grow_to s.tombstones index no_tombstone;
    tombstone_entities = grow_to s.tombstone_entities index 0;
    tombstone_positions = grow_to s.tombstone_positions index npos;
  }

  unfoldable pub has_tombstone : Storage V → ℕ → Bool
  has_tombstone s index =
      ltb index (length s.tombstones) && not (tombstone_at s index == no_tombstone)

  unfoldable pub erase_tombstone_index : ℕ → Storage V → Storage V
  erase_tombstone_index index s =
      if leb (length s.tombstone_positions) index
      then s
      else if position_of s index == npos || leb (length s.tombstone_indices) (position_of s index)
      then s
      else let last_index = get_or s.tombstone_indices (length s.tombstone_indices - 1) npos in
        record s {
          tombstone_indices = pop_back (set s.tombstone_indices (position_of s index) last_index);
          tombstone_positions =
              set (set s.tombstone_positions last_index (position_of s index)) index npos;
        }

  -- The write of the flags and of the entity at the end of `mark_tombstone`.
  unfoldable pub put_tombstone : ℕ → ℕ → ℕ → Storage V → Storage V
  put_tombstone index flags entity_value s = record s {
    tombstones = set s.tombstones index flags;
    tombstone_entities =
        set s.tombstone_entities index (if flags == no_tombstone then 0 else entity_value);
  }

  -- The change of the index list in `mark_tombstone`, in its two branches.
  unfoldable pub list_tombstone : ℕ → ℕ → Storage V → Storage V
  list_tombstone index flags s =
      if tombstone_at s index == no_tombstone && not (flags == no_tombstone)
      then record s {
        tombstone_count = s.tombstone_count + 1;
        tombstone_positions = set s.tombstone_positions index (length s.tombstone_indices);
        tombstone_indices = push_back s.tombstone_indices index;
      }
      else if not (tombstone_at s index == no_tombstone) && flags == no_tombstone
      then erase_tombstone_index index (record s { tombstone_count = s.tombstone_count - 1 })
      else s

  -- `if (tombstone_entities_.size() < tombstones_.size()) tombstone_entities_.resize(...)`
  unfoldable pub widen_entities : Storage V → Storage V
  widen_entities s =
      if ltb (length s.tombstone_entities) (length s.tombstones)
      then record s { tombstone_entities = resize s.tombstone_entities (length s.tombstones) 0 }
      else s

  unfoldable pub mark_tombstone : Entity → ℕ → Storage V → Storage V
  mark_tombstone entity flags s = put_tombstone (entity_index entity) flags entity.value (
      list_tombstone (entity_index entity) flags
        (widen_entities (ensure_sparse (entity_index entity) s)))

  unfoldable pub mark_tombstone_index : ℕ → ℕ → Storage V → Storage V
  mark_tombstone_index index flags s = mark_tombstone (record { value = index }) flags s

  unfoldable pub clear_tombstone : ℕ → Storage V → Storage V
  clear_tombstone index s =
      let erased = erase_tombstone_index index (record s {
        tombstones = set s.tombstones index no_tombstone;
        tombstone_entities = set s.tombstone_entities index 0;
      }) in
      if has_tombstone s index
      then record erased { tombstone_count = erased.tombstone_count - 1 }
      else s

  unfoldable pub clear_tombstone_for_entity : Entity → Storage V → Storage V
  clear_tombstone_for_entity entity s =
      if not (has_tombstone s (entity_index entity))
      then s
      else if leb (length s.tombstone_entities) (entity_index entity)
          || not (get_or s.tombstone_entities (entity_index entity) 0 == entity.value)
      then s
      else clear_tombstone (entity_index entity) s

  unfoldable pub has_destroy_tombstone : Storage V → ℕ → Bool
  has_destroy_tombstone s index = has_tombstone s index && has_destroy_flag (tombstone_at s index)

  unfoldable pub tombstone_size : Storage V → ℕ
  tombstone_size s = if s.tombstone_count == 0 then 0 else length s.tombstones

  unfoldable pub tombstone_entry_count : Storage V → ℕ
  tombstone_entry_count s = length s.tombstone_indices

  unfoldable pub tombstone_index_at : Storage V → ℕ → ℕ
  tombstone_index_at s position = get_or s.tombstone_indices position npos

  unfoldable pub tombstone_flags_at : Storage V → ℕ → ℕ
  tombstone_flags_at s position =
      if s.compact_lookup
      then tombstone_at s position
      else tombstone_at s (tombstone_index_at s position)

  -- The value of the entity, or the bare index where none is kept.
  unfoldable pub tombstone_entity_at : Storage V → ℕ → Entity
  tombstone_entity_at s position =
      let index = tombstone_index_at s position in
      let at = if s.compact_lookup then position else index in
      if ltb at (length s.tombstone_entities) && not (get_or s.tombstone_entities at 0 == 0)
      then record { value = get_or s.tombstone_entities at 0 }
      else record { value = index }

  unfoldable pub has_dirty_tombstone_at : Storage V → ℕ → Bool
  has_dirty_tombstone_at s index = has_tombstone s index

  unfoldable pub has_dirty_tombstone_at_position : Storage V → ℕ → Bool
  has_dirty_tombstone_at_position s position = has_dirty_flag (tombstone_flags_at s position)

  unfoldable pub has_destroy_tombstone_at_position : Storage V → ℕ → Bool
  has_destroy_tombstone_at_position s position = has_destroy_flag (tombstone_flags_at s position)
