-- ===== src/Storage/Laws/Tombs.antt =====
-- The tombstone operations: what they keep, and what `has_tombstone` reads afterwards.
use ashiato.Base.{
  ℕ, ◌+◌, ◌-◌, ◌<◌, ◌≤◌, ◌≡◌, refl, ◌==◌, arith, if◌then◌else◌, length, get_or, set, pop_back,
  length-set, length-pop_back, length-grow_to, max,
}
use ashiato.Base.Reads.{get_or-set, get_or-pop_back, get_or-grow_to, get_or-past}
use ashiato.Storage.{Storage, npos, no_tombstone, sparse_at}
use ashiato.Storage.Tombstones.{tombstone_at, position_of, ensure_sparse, erase_tombstone_index}
use ashiato.Storage.Laws.Invariant.{IsDense, IsBuried, IsDense-congr}

module _ {V : Type 0} (s : Storage V) (i : ℕ) where
  -- Growing the vectors changes no read.
  pub ensure_sparse-reads :
      (j : ℕ)
      → (sparse_at (ensure_sparse i s) j ≡ sparse_at s j)
        × (tombstone_at (ensure_sparse i s) j ≡ tombstone_at s j)
        × (position_of (ensure_sparse i s) j ≡ position_of s j)
        × (get_or (ensure_sparse i s).tombstone_entities j 0 ≡ get_or s.tombstone_entities j 0)
  unfolding ensure_sparse
  ensure_sparse-reads j = (
    get_or-grow_to s.sparse i npos j,
    get_or-grow_to s.tombstones i no_tombstone j,
    get_or-grow_to s.tombstone_positions i npos j,
    get_or-grow_to s.tombstone_entities i 0 j,
  )

  pub ensure_sparse-lengths :
      (length (ensure_sparse i s).sparse ≡ max (length s.sparse) (i + 1))
      × (length (ensure_sparse i s).tombstones ≡ max (length s.tombstones) (i + 1))
      × (length (ensure_sparse i s).tombstone_positions
          ≡ max (length s.tombstone_positions) (i + 1))
      × (length (ensure_sparse i s).tombstone_entities ≡ max (length s.tombstone_entities) (i + 1))
  unfolding ensure_sparse
  ensure_sparse-lengths = (
    length-grow_to s.sparse i npos,
    length-grow_to s.tombstones i no_tombstone,
    length-grow_to s.tombstone_positions i npos,
    length-grow_to s.tombstone_entities i 0,
  )

  pub ensure_sparse-IsDense : IsDense s → IsDense (ensure_sparse i s)
  unfolding ensure_sparse
  ensure_sparse-IsDense w =
      IsDense-congr s (ensure_sparse i s) refl (λ j. (ensure_sparse-reads j).0)
        (omega (arith, length-grow_to s.sparse i npos)) refl refl refl w

  pub ensure_sparse-IsBuried : IsBuried s → IsBuried (ensure_sparse i s)
  unfolding ensure_sparse
  ensure_sparse-IsBuried w = record {
    positions_length = omega (arith, ensure_sparse-lengths, w.positions_length);
    entities_length = omega (arith, ensure_sparse-lengths, w.entities_length);
    listed = λ j. rw ((ensure_sparse-reads j).1, (ensure_sparse-reads j).2) (w.listed j);
    buried = λ p h.
        rw
          (
            (ensure_sparse-reads (get_or s.tombstone_indices p npos)).1,
            (ensure_sparse-reads (get_or s.tombstone_indices p npos)).2,
          )
          (w.buried p h);
    tombstones_counted = w.tombstones_counted;
    few = w.few;
  }

  -- What `erase_tombstone_index` needs: `i` is in the list, and the list leads back to itself.
  pub record IsListed : Type 0 where
    pub inside : position_of s i < length s.tombstone_indices
    pub here : get_or s.tombstone_indices (position_of s i) npos ≡ i
    pub back :
        (p : ℕ)
        → p < length s.tombstone_indices
        → position_of s (get_or s.tombstone_indices p npos) ≡ p
    pub short : length s.tombstone_indices ≤ npos

  abbrev pub last_index : ℕ
  last_index = get_or s.tombstone_indices (length s.tombstone_indices - 1) npos

  module _ (w : IsListed) where
    bounds :
        (i < length s.tombstone_positions)
        × (last_index < length s.tombstone_positions)
        × (position_of s last_index ≡ length s.tombstone_indices - 1)
    bounds = (
      ground (arith, get_or-past s.tombstone_positions i npos),
      ground (
        arith,
        get_or-past s.tombstone_positions last_index npos,
        w.back (length s.tombstone_indices - 1),
      ),
      w.back (length s.tombstone_indices - 1) (omega (arith, w.inside)),
    )

    -- None of the early returns is taken.
    pub erased : erase_tombstone_index i s ≡ record s {
      tombstone_indices = pop_back (set s.tombstone_indices (position_of s i) last_index);
      tombstone_positions = set (set s.tombstone_positions last_index (position_of s i)) i npos;
    }
    unfolding erase_tombstone_index
    erased = ground (arith, bounds)

    -- The list after one index is taken out of it, the last one moved to its place.
    pub indices_erased :
        (p : ℕ)
        → p < length s.tombstone_indices - 1
        → get_or (erase_tombstone_index i s).tombstone_indices p npos
          ≡ (if p == position_of s i then last_index else get_or s.tombstone_indices p npos)
    indices_erased p b = rw erased (
        ground (
          arith,
          get_or-pop_back (set s.tombstone_indices (position_of s i) last_index) p npos,
          get_or-set s.tombstone_indices (position_of s i) p last_index npos,
          length-set s.tombstone_indices (position_of s i) last_index,
        ))

    pub positions_erased :
        (j : ℕ)
        → position_of (erase_tombstone_index i s) j
          ≡ (if j == i then npos else if j == last_index then position_of s i else position_of s j)
    positions_erased j = rw erased (
        ground (
          arith,
          get_or-set (set s.tombstone_positions last_index (position_of s i)) i j npos npos,
          get_or-set s.tombstone_positions last_index j (position_of s i) npos,
          length-set s.tombstone_positions last_index (position_of s i),
          bounds,
        ))

    pub lengths_erased :
        (length (erase_tombstone_index i s).tombstone_indices ≡ length s.tombstone_indices - 1)
        × (length (erase_tombstone_index i s).tombstone_positions ≡ length s.tombstone_positions)
    lengths_erased = rw erased (
        ground (
          arith,
          length-pop_back (set s.tombstone_indices (position_of s i) last_index),
          length-set s.tombstone_indices (position_of s i) last_index,
          length-set s.tombstone_positions last_index (position_of s i),
          length-set (set s.tombstone_positions last_index (position_of s i)) i npos,
        ))

    pub kept_erased :
        ((erase_tombstone_index i s).tombstones ≡ s.tombstones)
        × ((erase_tombstone_index i s).tombstone_entities ≡ s.tombstone_entities)
        × ((erase_tombstone_index i s).tombstone_count ≡ s.tombstone_count)
    kept_erased = rw erased (refl, refl, refl)
