-- ===== src/Storage/Laws/Erase.antt =====
-- `erase_at`: the last entry takes the place of the one that goes.
use ashiato.Base.{
  ℕ, ◌-◌, ◌<◌, ◌≡◌, false, ◌==◌, arith, if◌then◌else◌, length, get_or, set, length-set,
  length-pop_back, inl, inr, List, ◌∙◌, get_elem?, Option-cases,
}
use ashiato.Base.Reads.{
  get_or-set, get_or-pop_back, get_elem?-set, get_elem?-pop_back, get_elem?-inside,
}
use ashiato.Base.Counting.{
  swap_remove, length-swap_remove, get_or-swap_remove, count_set-swap_remove,
}
use ashiato.Storage.Laws.Marks.{
  clear_dirty_dense-IsFlagged, clear_added_dense-IsFlagged, dirty-clear_dirty_dense,
  added-clear_added_dense, size-clear_dirty_dense, size-clear_added_dense,
}
use ashiato.Storage.{Storage, npos, sparse_at, dense_index_at}
use ashiato.Storage.Flags.{clear_dirty_dense, clear_added_dense}
use ashiato.Storage.Erase.{erase_at, fill_gap, drop_last, move_value}
use ashiato.Storage.Laws.Invariant.{IsDense, IsFlagged, dense_injective}

length-move_value {ℓ} :
    {V : Type ℓ} (target last : ℕ) (values : List V)
    → length (move_value target last values) ≡ length values
unfolding move_value
length-move_value target last values = elim (Option-cases (get_elem? values last)) [
  | inl e ↦ rw (e, move_value)
  | inr (v, e) ↦ rw (e, move_value) (length-set values target v)
]

module _ {V : Type 0} (s : Storage V) (d : ℕ) (w : IsDense s) (b : d < s.size) where
  last : ℕ
  last = s.size - 1

  -- The indices after the call.
  pub dense-erase_at :
      (j : ℕ)
      → j < s.size - 1
      → dense_index_at (erase_at d s) j
        ≡ (if j == d then dense_index_at s (s.size - 1) else dense_index_at s j)
  unfolding erase_at drop_last fill_gap clear_dirty_dense clear_added_dense
  dense-erase_at j h = ground (
    arith,
    get_or-pop_back s.dense_indices j npos,
    get_or-pop_back (set s.dense_indices d (dense_index_at s (s.size - 1))) j npos,
    get_or-set s.dense_indices d j (dense_index_at s (s.size - 1)) npos,
    length-set s.dense_indices d (dense_index_at s (s.size - 1)),
    w.dense_length,
  )

  pub sparse-erase_at :
      (j : ℕ)
      → sparse_at (erase_at d s) j ≡ (
          if j == dense_index_at s d
          then npos
          else if j == dense_index_at s (s.size - 1)
          then d
          else sparse_at s j)
  unfolding erase_at drop_last fill_gap clear_dirty_dense clear_added_dense
  sparse-erase_at j = ground (
    arith,
    get_or-set (set s.sparse m d) (dense_index_at s d) j npos npos,
    get_or-set s.sparse (dense_index_at s d) j npos npos,
    get_or-set s.sparse m j d npos,
    length-set s.sparse m d,
    w.dense_inside d,
    w.dense_inside (s.size - 1),
  )
    where
      m : ℕ
      m = dense_index_at s (s.size - 1)

  -- The flags and the size after the call.
  pub size-erase_at : (erase_at d s).size ≡ s.size - 1
  unfolding erase_at drop_last fill_gap clear_dirty_dense clear_added_dense
  size-erase_at = ground arith

  pub tag-erase_at : (erase_at d s).info ≡ s.info
  unfolding erase_at drop_last fill_gap clear_dirty_dense clear_added_dense
  tag-erase_at = ground arith

  length-erase_at :
      (length (erase_at d s).dense_indices ≡ (erase_at d s).size)
      × (length (erase_at d s).sparse ≡ length s.sparse)
  unfolding erase_at drop_last fill_gap clear_dirty_dense clear_added_dense
  length-erase_at = (
    ground (
      arith,
      length-pop_back s.dense_indices,
      length-pop_back (set s.dense_indices d m),
      length-set s.dense_indices d m,
      w.dense_length,
    ),
    ground (
      arith,
      length-set s.sparse m d,
      length-set (set s.sparse m d) (dense_index_at s d) npos,
      length-set s.sparse (dense_index_at s d) npos,
    ),
  )
    where
      m : ℕ
      m = dense_index_at s (s.size - 1)

  values-erase_at :
      (erase_at d s).info.tag ≡ false → length (erase_at d s).values ≡ (erase_at d s).size
  unfolding erase_at drop_last fill_gap clear_dirty_dense clear_added_dense
  values-erase_at h = ground (
    arith,
    length-pop_back s.values,
    length-pop_back (move_value d (s.size - 1) s.values),
    length-move_value d (s.size - 1) s.values,
    w.value_length,
  )

  -- The last entry brings its value along.
  pub get_elem?-erase_at :
      (j : ℕ)
      → s.info.tag ≡ false
      → j < s.size - 1
      → get_elem? (erase_at d s).values j
        ≡ (if j == d then get_elem? s.values (s.size - 1) else get_elem? s.values j)
  unfolding erase_at drop_last fill_gap clear_dirty_dense clear_added_dense move_value
  get_elem?-erase_at j t h =
      let (v, e) = get_elem?-inside s.values (s.size - 1) (omega (arith, w.value_length t)) in
      ground (
        arith,
        get_elem?-pop_back s.values j,
        get_elem?-pop_back (set s.values d v) j,
        length-set s.values d v,
        get_elem?-set s.values d j v,
        w.value_length,
      )

  pub erase_at-IsDense : IsDense (erase_at d s)
  erase_at-IsDense = record {
    dense_length = length-erase_at.0;
    dense_inside = λ j h. ground (
      arith,
      size-erase_at,
      dense-erase_at j,
      length-erase_at,
      w.dense_inside j,
      w.dense_inside (s.size - 1),
    );
    inverse = λ j h. ground (
      arith,
      size-erase_at,
      dense-erase_at j,
      sparse-erase_at (dense_index_at (erase_at d s) j),
      dense_injective s d j w b,
      dense_injective s d (s.size - 1) w b,
      dense_injective s j (s.size - 1) w,
      w.inverse j,
    );
    value_length = values-erase_at;
    small = omega (arith, size-erase_at, w.small);
  }

  counts :
      ((erase_at d s).dirty_count ≡ (clear_dirty_dense d s).dirty_count)
      × ((erase_at d s).added_count ≡ (clear_added_dense d s).added_count)
  unfolding erase_at drop_last fill_gap clear_dirty_dense clear_added_dense
  counts = (ground arith, ground arith)

  module _ (f : IsFlagged s) where
    dirty_swap : (erase_at d s).dirty ≡ swap_remove d (clear_dirty_dense d s).dirty
    unfolding erase_at drop_last fill_gap clear_added_dense clear_dirty_dense swap_remove
    dirty_swap = ground (arith, f.dirty_length, length-set s.dirty d 0)

    added_swap : (erase_at d s).added ≡ swap_remove d (clear_added_dense d s).added
    unfolding erase_at drop_last fill_gap clear_added_dense clear_dirty_dense swap_remove
    added_swap = ground (arith, f.added_length, length-set s.added d 0)

    cleared_length : length (clear_dirty_dense d s).dirty ≡ s.size
    cleared_length = (clear_dirty_dense-IsFlagged s d f b).dirty_length ∙ size-clear_dirty_dense s d

    -- The last entry brings its flags along.
    pub dirty-erase_at :
        (j : ℕ)
        → j < s.size - 1
        → get_or (erase_at d s).dirty j 0
          ≡ (if j == d then get_or s.dirty (s.size - 1) 0 else get_or s.dirty j 0)
    dirty-erase_at j h = rw dirty_swap (
        ground (
          arith,
          cleared_length,
          get_or-swap_remove (clear_dirty_dense d s).dirty d (rw cleared_length b) j,
          dirty-clear_dirty_dense s d f b j,
          dirty-clear_dirty_dense s d f b (s.size - 1),
        ))

    pub erase_at-IsFlagged : IsFlagged (erase_at d s)
    erase_at-IsFlagged = record {
      dirty_length =
          rw (dirty_swap, size-erase_at)
            (ground (
              arith,
              length-swap_remove (clear_dirty_dense d s).dirty d,
              (clear_dirty_dense-IsFlagged s d f b).dirty_length,
              size-clear_dirty_dense s d,
            ));
      added_length =
          rw (added_swap, size-erase_at)
            (ground (
              arith,
              length-swap_remove (clear_added_dense d s).added d,
              (clear_added_dense-IsFlagged s d f b).added_length,
              size-clear_added_dense s d,
            ));
      dirty_counted =
          rw (dirty_swap, counts.0)
            (ground (
              arith,
              count_set-swap_remove (clear_dirty_dense d s).dirty d,
              (clear_dirty_dense-IsFlagged s d f b).dirty_length,
              (clear_dirty_dense-IsFlagged s d f b).dirty_counted,
              size-clear_dirty_dense s d,
              dirty-clear_dirty_dense s d f b d,
            ));
      added_counted =
          rw (added_swap, counts.1)
            (ground (
              arith,
              count_set-swap_remove (clear_added_dense d s).added d,
              (clear_added_dense-IsFlagged s d f b).added_length,
              (clear_added_dense-IsFlagged s d f b).added_counted,
              size-clear_added_dense s d,
              added-clear_added_dense s d f b d,
            ));
    }
