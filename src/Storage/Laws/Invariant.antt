-- ===== src/Storage/Laws/Invariant.antt =====
-- The representation invariant of `TypeErasedStorage`, field by field, and what `contains` and
-- `is_dirty` come to where it holds.
use ashiato.Base.{
  ℕ, ◌<◌, ◌≤◌, ◌≡◌, ◌≢◌, refl, true, false, not, ◌&&◌, ◌==◌, ltb, arith, length, get_or,
}
use ashiato.Base.Reads.{get_or-past}
use ashiato.Base.Counting.{count_set}
use ashiato.Storage.{Storage, Info, new, npos, no_tombstone, sparse_at, dense_index_at, contains}
use ashiato.Storage.Tombstones.{tombstone_at, position_of, has_tombstone}

module _ {V : Type 0} where
  -- The dense and the sparse vector are inverse to one another.
  pub record IsDense (s : Storage V) : Type 0 where
    pub dense_length : length s.dense_indices ≡ s.size
    pub dense_inside : (d : ℕ) → d < s.size → dense_index_at s d < length s.sparse
    pub inverse : (d : ℕ) → d < s.size → sparse_at s (dense_index_at s d) ≡ d
    pub value_length : s.info.tag ≡ false → length s.values ≡ s.size
    pub small : s.size < npos

  -- Every dense entry has its two flags, and the counters count the flags that are set.
  pub record IsFlagged (s : Storage V) : Type 0 where
    pub dirty_length : length s.dirty ≡ s.size
    pub added_length : length s.added ≡ s.size
    pub dirty_counted : s.dirty_count ≡ count_set s.dirty
    pub added_counted : s.added_count ≡ count_set s.added

  -- The list of the tombstones and the positions in it are inverse to one another.
  pub record IsBuried (s : Storage V) : Type 0 where
    pub positions_length : length s.tombstone_positions ≡ length s.tombstones
    pub entities_length : length s.tombstone_entities ≡ length s.tombstones
    pub listed :
        (i : ℕ)
        → tombstone_at s i ≢ no_tombstone
        → (position_of s i < length s.tombstone_indices)
          × (get_or s.tombstone_indices (position_of s i) npos ≡ i)
    pub buried :
        (p : ℕ)
        → p < length s.tombstone_indices
        → (tombstone_at s (get_or s.tombstone_indices p npos) ≢ no_tombstone)
          × (position_of s (get_or s.tombstone_indices p npos) ≡ p)
    pub tombstones_counted : s.tombstone_count ≡ length s.tombstone_indices
    pub few : length s.tombstone_indices ≤ npos

  pub record IsValid (s : Storage V) : Type 0 where
    pub dense : IsDense s
    pub flagged : IsFlagged s
    pub tombs : IsBuried s
    pub ordinary : s.compact_lookup ≡ false

  -- `index < sparse_.size()` and `dense != npos` follow from `dense < size_`.
  pub contains_lem :
      (s : Storage V) (i : ℕ)
      → IsDense s
      → contains s i ≡ (ltb (sparse_at s i) s.size && dense_index_at s (sparse_at s i) == i)
  unfolding contains
  contains_lem s i w = ground (arith, get_or-past s.sparse i npos)

  -- What is contained has a dense position below the size, from which it is read back.
  pub contains-at :
      (s : Storage V) (i : ℕ)
      → IsDense s
      → contains s i ≡ true
      → (sparse_at s i < s.size) × (dense_index_at s (sparse_at s i) ≡ i)
  contains-at s i w h = ground (arith, contains_lem s i w)

  -- The index of a dense entry is contained.
  pub dense-contains :
      (s : Storage V) (d : ℕ) → IsDense s → d < s.size → contains s (dense_index_at s d) ≡ true
  dense-contains s d w h = ground (arith, contains_lem s (dense_index_at s d) w, w.inverse d)

  -- Two dense entries with one index are one entry.
  pub dense_injective :
      (s : Storage V) (a b : ℕ)
      → IsDense s
      → a < s.size
      → b < s.size
      → dense_index_at s a ≡ dense_index_at s b
      → a ≡ b
  dense_injective s a b w ha hb e = ground (arith, w.inverse a, w.inverse b)

  pub has_tombstone_lem :
      (s : Storage V) (i : ℕ) → has_tombstone s i ≡ not (tombstone_at s i == no_tombstone)
  unfolding has_tombstone
  has_tombstone_lem s i = ground (arith, get_or-past s.tombstones i no_tombstone)

module _ {V : Type 0} (s t : Storage V) where
  -- The dense part is read off these fields.
  pub IsDense-congr :
      t.dense_indices ≡ s.dense_indices
      → ((i : ℕ) → sparse_at t i ≡ sparse_at s i)
      → length s.sparse ≤ length t.sparse
      → length t.values ≡ length s.values
      → t.size ≡ s.size
      → t.info ≡ s.info
      → IsDense s
      → IsDense t
  IsDense-congr d p l v n i w = record {
    dense_length = rw (d, n) w.dense_length;
    dense_inside = λ k h. rw d (omega (arith, w.dense_inside k));
    inverse = λ k h. rw (d, p) (w.inverse k (omega arith));
    value_length = λ h. rw (v, n) (w.value_length (rw (← i) h));
    small = rw n w.small;
  }

  pub IsFlagged-congr :
      t.dirty ≡ s.dirty
      → t.added ≡ s.added
      → t.size ≡ s.size
      → t.dirty_count ≡ s.dirty_count
      → t.added_count ≡ s.added_count
      → IsFlagged s
      → IsFlagged t
  IsFlagged-congr d a n dc ac w = record {
    dirty_length = rw (d, n) w.dirty_length;
    added_length = rw (a, n) w.added_length;
    dirty_counted = rw (dc, d) w.dirty_counted;
    added_counted = rw (ac, a) w.added_counted;
  }

  pub IsBuried-congr :
      t.tombstones ≡ s.tombstones
      → t.tombstone_indices ≡ s.tombstone_indices
      → t.tombstone_positions ≡ s.tombstone_positions
      → t.tombstone_entities ≡ s.tombstone_entities
      → t.tombstone_count ≡ s.tombstone_count
      → IsBuried s
      → IsBuried t
  IsBuried-congr a i p e n w = record {
    positions_length = rw (p, a) w.positions_length;
    entities_length = rw (e, a) w.entities_length;
    listed = λ k. rw (a, i, p) (w.listed k);
    buried = λ k. rw (a, i, p) (w.buried k);
    tombstones_counted = rw (n, i) w.tombstones_counted;
    few = rw i w.few;
  }

-- A storage without entries is well formed.
pub new-IsValid : {V : Type 0} (info : Info) → IsValid {V = V} (new info)
unfolding new count_set
new-IsValid info = record {
  dense = record {
    dense_length = refl;
    dense_inside = λ d h. absurd (omega arith);
    inverse = λ d h. absurd (omega arith);
    value_length = λ h. refl;
    small = omega arith;
  };
  flagged = record {
    dirty_length = refl;
    added_length = refl;
    dirty_counted = refl;
    added_counted = refl;
  };
  tombs = record {
    positions_length = refl;
    entities_length = refl;
    listed = λ i h. absurd (h refl);
    buried = λ p h. absurd (omega arith);
    tombstones_counted = refl;
    few = omega arith;
  };
  ordinary = refl;
}
