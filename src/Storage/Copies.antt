-- ===== src/Storage/Copies.antt =====
-- src/storage.cpp: copies of a storage, for snapshots. A compact copy keeps no sparse vector, and
-- its tombstone vectors run by position; `rebuild_lookup` makes an ordinary storage of it.
use ashiato.Base.{
  ℕ, zero, suc, ◌+◌, max, Bool, true, false, ◌||◌, ◌&&◌, not, ◌==◌, ltb, if◌then◌else◌, List, [],
  ◌∷◌, length, get_or, get_elem?, set, push_back, replicate, none, some, Result, ok, logic_error,
  throw_if, ◌>>=◌, ◌>>◌,
}
use ashiato.Storage.{Storage, npos, no_tombstone, new, dense_index_at}
use ashiato.Storage.Tombstones.{tombstone_at}
use ashiato.Storage.Insert.{require_copyable}
use ashiato.Storage.Erase.{erase_at}

-- `index < excluded.size() && excluded[index]`
unfoldable pub is_excluded : List Bool → ℕ → Bool
is_excluded excluded index = ltb index (length excluded) && get_or excluded index false

unfoldable pub any_excluded : List Bool → List ℕ → Bool
any_excluded excluded [] = false
any_excluded excluded (index ∷ rest) = is_excluded excluded index || any_excluded excluded rest

-- `lookup_size = max(lookup_size, index + 1)` for each index.
unfoldable pub lookup_size : ℕ → List ℕ → ℕ
lookup_size acc [] = acc
lookup_size acc (index ∷ rest) = lookup_size (max acc (index + 1)) rest

-- The entity kept for a tombstone, or the bare index where none is.
unfoldable pub kept_entity : ℕ → ℕ → List ℕ → ℕ
kept_entity at index entities =
    if ltb at (length entities) && not (get_or entities at 0 == 0)
    then get_or entities at 0
    else index

-- `table[indices[k]] = position + k` for each `k`.
unfoldable pub index_positions : List ℕ → ℕ → List ℕ → List ℕ
index_positions [] position table = table
index_positions (index ∷ rest) position table =
    index_positions rest (position + 1) (set table index position)

module _ {V : Type 0} where
  -- `copy_from`: the values, or `std::logic_error`. A copy constructor that throws is not modelled.
  unfoldable pub copy_from : Storage V → Result (Unit {0})
  copy_from other =
      if other.capacity == 0 || other.info.tag
      then ok tt
      else if other.info.trivially_copyable
      then ok tt
      else throw_if (not other.info.copyable) logic_error

  -- The vectors that the copy constructor takes over.
  unfoldable pub copied : Storage V → Storage V
  copied other =
      let none_left = other.tombstone_count == 0 in
      record other {
        tombstones = if none_left then [] else other.tombstones;
        tombstone_indices = if none_left then [] else other.tombstone_indices;
        tombstone_positions = if none_left then [] else other.tombstone_positions;
        tombstone_entities = if none_left then [] else other.tombstone_entities;
      }

  -- The copy constructor, and `clone`.
  unfoldable pub clone : Storage V → Result (Storage V)
  clone s = copy_from s >> ok (copied s)

  -- The rounds `dense`, ..., 1 of the loop of `clone_dirty`.
  unfoldable pub erase_clean : ℕ → Storage V → Storage V
  erase_clean zero s = s
  erase_clean (suc position) s =
      erase_clean position (if get_or s.dirty position 0 == 0 then erase_at position s else s)

  unfoldable pub clone_dirty : Storage V → Result (Storage V)
  clone_dirty s = do copy ← clone s; ok (erase_clean copy.size copy)

  unfoldable pub has_excluded_storage_entries : List Bool → Storage V → Bool
  has_excluded_storage_entries excluded s =
      if length excluded == 0
      then false
      else any_excluded excluded s.dense_indices || any_excluded excluded s.tombstone_indices

  -- One round of `copy_compact_tombstones_excluding`.
  unfoldable pub copy_tombstone : List Bool → Storage V → ℕ → Storage V → Storage V
  copy_tombstone excluded s index copy =
      if is_excluded excluded index
      then copy
      else if tombstone_at s index == no_tombstone
      then copy
      else record copy {
        tombstone_indices = push_back copy.tombstone_indices index;
        tombstones = push_back copy.tombstones (tombstone_at s index);
        tombstone_entities =
            push_back copy.tombstone_entities (kept_entity index index s.tombstone_entities);
        tombstone_count = copy.tombstone_count + 1;
      }

  unfoldable pub copy_tombstones : List Bool → Storage V → List ℕ → Storage V → Storage V
  copy_tombstones excluded s [] copy = copy
  copy_tombstones excluded s (index ∷ rest) copy =
      copy_tombstones excluded s rest (copy_tombstone excluded s index copy)

  unfoldable pub copy_compact_tombstones_excluding : List Bool → Storage V → Storage V → Storage V
  copy_compact_tombstones_excluding excluded s copy =
      if s.tombstone_count == 0 then copy else copy_tombstones excluded s s.tombstone_indices copy

  -- The value of a dense entry, constructed at the end of the copy.
  unfoldable pub copy_value : Storage V → ℕ → List V → List V
  copy_value s dense values = elim (get_elem? s.values dense) [
    | none ↦ values
    | some v ↦ push_back values v
  ]

  -- One round of the loop of `clone_compact_filtered` over the dense entries.
  unfoldable pub copy_entry : List Bool → Bool → Storage V → ℕ → Storage V → Storage V
  copy_entry excluded dirty_only s dense copy =
      if is_excluded excluded (dense_index_at s dense)
        || (dirty_only && get_or s.dirty dense 0 == 0)
      then copy
      else record copy {
        values = if s.info.tag then copy.values else copy_value s dense copy.values;
        dense_indices = push_back copy.dense_indices (dense_index_at s dense);
        dirty = push_back copy.dirty (get_or s.dirty dense 0);
        added = push_back copy.added (get_or s.added dense 0);
        dirty_count =
            if get_or s.dirty dense 0 == 0 then copy.dirty_count else copy.dirty_count + 1;
        added_count =
            if get_or s.added dense 0 == 0 then copy.added_count else copy.added_count + 1;
        size = copy.size + 1;
      }

  unfoldable pub copy_entries : List Bool → Bool → Storage V → ℕ → ℕ → Storage V → Storage V
  copy_entries excluded dirty_only s dense zero copy = copy
  copy_entries excluded dirty_only s dense (suc rounds) copy =
      copy_entries excluded dirty_only s (dense + 1) rounds
        (copy_entry excluded dirty_only s dense copy)

  -- The branch that takes every dense entry over at once.
  unfoldable pub copy_all_entries : Storage V → Storage V → Storage V
  copy_all_entries s copy = record copy {
    dense_indices = s.dense_indices;
    dirty = s.dirty;
    added = s.added;
    capacity = s.size;
    dirty_count = s.dirty_count;
    added_count = s.added_count;
    size = s.size;
    values = s.values;
  }

  -- Without an entry to copy `construct_copy` is not called, so it does not throw.
  unfoldable pub clone_compact_filtered : List Bool → Bool → Storage V → Result (Storage V)
  clone_compact_filtered excluded dirty_only s =
      let copy = record (new {V = V} s.info) { compact_lookup = true } in
      let capacity_hint = if dirty_only then s.dirty_count else s.size in
      let filtered =
        copy_entries excluded dirty_only s 0 s.size
          (record copy { capacity = if s.info.tag then 0 else capacity_hint }) in
      if not dirty_only && not (has_excluded_storage_entries excluded s)
      then (if s.size == 0 then ok tt else require_copyable s.info)
        >> ok (copy_compact_tombstones_excluding excluded s (copy_all_entries s copy))
      else (if filtered.size == 0 then ok tt else require_copyable s.info)
        >> ok (copy_compact_tombstones_excluding excluded s filtered)

  unfoldable pub clone_excluding : List Bool → Storage V → Result (Storage V)
  clone_excluding excluded s = clone_compact_filtered excluded false s

  unfoldable pub clone_dirty_excluding : List Bool → Storage V → Result (Storage V)
  clone_dirty_excluding excluded s = clone_compact_filtered excluded true s

  -- `rebuilt_tombstones[index] = ...` for the tombstones of a compact copy, by position.
  unfoldable pub rebuild_compact : List ℕ → ℕ → Storage V → Storage V → Storage V
  rebuild_compact [] position s rebuilt = rebuilt
  rebuild_compact (index ∷ rest) position s rebuilt =
      rebuild_compact rest (position + 1) s (record rebuilt {
        tombstones = set rebuilt.tombstones index (tombstone_at s position);
        tombstone_entities =
            set rebuilt.tombstone_entities index (kept_entity position index s.tombstone_entities);
      })

  -- The same for an ordinary storage, by index.
  unfoldable pub rebuild_ordinary : List ℕ → Storage V → Storage V → Storage V
  rebuild_ordinary [] s rebuilt = rebuilt
  rebuild_ordinary (index ∷ rest) s rebuilt = rebuild_ordinary rest s (record rebuilt {
    tombstones =
        if ltb index (length s.tombstones)
        then set rebuilt.tombstones index (tombstone_at s index)
        else rebuilt.tombstones;
    tombstone_entities =
        if ltb index (length s.tombstone_entities)
        then set rebuilt.tombstone_entities index (get_or s.tombstone_entities index 0)
        else rebuilt.tombstone_entities;
  })

  unfoldable pub rebuild_lookup : Storage V → Storage V
  rebuild_lookup s =
      let n = lookup_size (lookup_size 0 s.dense_indices) s.tombstone_indices in
      let cleared = record s {
        sparse = index_positions s.dense_indices 0 (replicate n npos);
        tombstone_positions = index_positions s.tombstone_indices 0 (replicate n npos);
        tombstones = replicate n no_tombstone;
        tombstone_entities = replicate n 0;
      } in
      let rebuilt =
        if s.compact_lookup
        then rebuild_compact s.tombstone_indices 0 s cleared
        else rebuild_ordinary s.tombstone_indices s cleared in
      record rebuilt { compact_lookup = false }

  unfoldable pub clone_for_restore : Storage V → Result (Storage V)
  clone_for_restore s = do copy ← clone s; ok (rebuild_lookup copy)
