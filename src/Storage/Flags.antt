-- ===== src/Storage/Flags.antt =====
-- src/storage.cpp: the dirty and added flags of the dense entries.
use ashiato.Base.{ℕ, ◌+◌, ◌-◌, Bool, ◌||◌, not, ◌==◌, if◌then◌else◌, get_or, set, fill, []}
use ashiato.Storage.{Storage, npos, sparse_at, contains, no_tombstone}

module _ {V : Type 0} where
  unfoldable pub mark_dirty_dense : ℕ → Storage V → Storage V
  mark_dirty_dense dense s =
      if get_or s.dirty dense 0 == 0
      then record s { dirty = set s.dirty dense 1; dirty_count = s.dirty_count + 1 }
      else s

  unfoldable pub clear_dirty_dense : ℕ → Storage V → Storage V
  clear_dirty_dense dense s =
      if not (get_or s.dirty dense 0 == 0)
      then record s { dirty = set s.dirty dense 0; dirty_count = s.dirty_count - 1 }
      else s

  unfoldable pub clear_added_dense : ℕ → Storage V → Storage V
  clear_added_dense dense s =
      if not (get_or s.added dense 0 == 0)
      then record s { added = set s.added dense 0; added_count = s.added_count - 1 }
      else s

  unfoldable pub mark_dirty : ℕ → Storage V → Storage V
  mark_dirty index s = if contains s index then mark_dirty_dense (sparse_at s index) s else s

  -- `std::fill` over every flag vector, and the counters.
  unfoldable pub clear_all_dirty : Storage V → Storage V
  clear_all_dirty s = record s {
    dirty = fill s.dirty 0;
    added = fill s.added 0;
    tombstones = fill s.tombstones no_tombstone;
    tombstone_entities = fill s.tombstone_entities 0;
    tombstone_positions = fill s.tombstone_positions npos;
    tombstone_indices = [];
    dirty_count = 0;
    added_count = 0;
    tombstone_count = 0;
  }

  unfoldable pub has_dirty_entries : Storage V → Bool
  has_dirty_entries s =
      not (s.dirty_count == 0) || (not (s.added_count == 0) || not (s.tombstone_count == 0))
