-- ===== src/Storage/Access.antt =====
-- src/storage.cpp and include/ashiato/ashiato.hpp: reading values and flags, and what the dirty
-- iterations hand to their callbacks, in order.
use ashiato.Base.{
  ℕ, zero, suc, ◌+◌, Bool, true, false, not, ◌==◌, if◌then◌else◌, List, [], ◌∷◌, get_or, get_elem?,
  Option, none,
}
use ashiato.EntityStore.{Entity}
use ashiato.Storage.{Storage, sparse_at, dense_index_at, contains}
use ashiato.Storage.Flags.{clear_dirty_dense, clear_added_dense}
use ashiato.Storage.Tombstones.{
  has_tombstone, clear_tombstone, tombstone_entry_count, tombstone_entity_at,
  has_dirty_tombstone_at_position, has_destroy_tombstone_at_position,
}

-- `struct ComponentRemoval`
pub record ComponentRemoval : Type 0 where
  pub entity : Entity
  pub entity_destroyed : Bool

module _ {V : Type 0} where
  unfoldable pub get_dense : Storage V → ℕ → Option V
  get_dense s dense = if s.info.tag then none else get_elem? s.values dense

  unfoldable pub get : Storage V → ℕ → Option V
  get s index =
      if not (contains s index)
      then none
      else if s.info.tag
      then none
      else get_elem? s.values (sparse_at s index)

  -- Its asserts hold where the caller has tested `contains` on a component that is no tag.
  unfoldable pub get_unchecked : Storage V → ℕ → Option V
  get_unchecked s index = get_elem? s.values (sparse_at s index)

  unfoldable pub is_dirty : Storage V → ℕ → Bool
  is_dirty s index =
      if not (contains s index)
      then has_tombstone s index
      else not (get_or s.dirty (sparse_at s index) 0 == 0)

  unfoldable pub clear_dirty : ℕ → Storage V → Bool × Storage V
  clear_dirty index s =
      if not (contains s index)
      then (if has_tombstone s index then (true, clear_tombstone index s) else (false, s))
      else (true, clear_added_dense (sparse_at s index) (clear_dirty_dense (sparse_at s index) s))

  unfoldable pub clear_added : ℕ → Storage V → Bool × Storage V
  clear_added index s =
      if not (contains s index) then (false, s) else (true, clear_added_dense (sparse_at s index) s)

  -- The entries `[dense, dense + rounds)` whose flag in `flags` is set.
  unfoldable pub each_flagged : List ℕ → ℕ → ℕ → Storage V → List (ℕ × Option V)
  each_flagged flags dense zero s = []
  each_flagged flags dense (suc rounds) s =
      let rest = each_flagged flags (dense + 1) rounds s in
      if get_or flags dense 0 == 0 then rest else (dense_index_at s dense, get_dense s dense) ∷ rest

  unfoldable pub each_dirty : Storage V → List (ℕ × Option V)
  each_dirty s = each_flagged s.dirty 0 s.size s

  unfoldable pub each_added : Storage V → List (ℕ × Option V)
  each_added s = each_flagged s.added 0 s.size s

  unfoldable pub each_removed_from : ℕ → ℕ → Storage V → List ComponentRemoval
  each_removed_from position zero s = []
  each_removed_from position (suc rounds) s =
      let rest = each_removed_from (position + 1) rounds s in
      if not (has_dirty_tombstone_at_position s position)
      then rest
      else record {
        entity = tombstone_entity_at s position;
        entity_destroyed = has_destroy_tombstone_at_position s position;
      }
        ∷ rest

  unfoldable pub each_removed : Storage V → List ComponentRemoval
  each_removed s = each_removed_from 0 (tombstone_entry_count s) s
