-- ===== src/Storage/Laws/Marks.antt =====
-- Setting and clearing the flags of one dense entry.
use ashiato.Base.{ℕ, ◌<◌, ◌≡◌, not, ◌||◌, ◌==◌, arith, if◌then◌else◌, get_or, length-set}
use ashiato.Base.Reads.{get_or-set}
use ashiato.Base.Counting.{count_set-set, flag-le-count_set}
use ashiato.Storage.{Storage}
use ashiato.Storage.Flags.{mark_dirty_dense, clear_dirty_dense, clear_added_dense}
use ashiato.Storage.Laws.Invariant.{IsDense, IsFlagged, IsBuried, IsDense-congr, IsBuried-congr}

module _ {V : Type 0} (s : Storage V) (d : ℕ) where
  module _ (w : IsFlagged s) (b : d < s.size) where
    pub mark_dirty_dense-IsFlagged : IsFlagged (mark_dirty_dense d s)
    unfolding mark_dirty_dense
    mark_dirty_dense-IsFlagged = ground (arith, length-set s.dirty d 1, count_set-set s.dirty d 1)

    pub clear_dirty_dense-IsFlagged : IsFlagged (clear_dirty_dense d s)
    unfolding clear_dirty_dense
    clear_dirty_dense-IsFlagged =
        ground
          (arith, length-set s.dirty d 0, count_set-set s.dirty d 0, flag-le-count_set s.dirty d)

    pub clear_added_dense-IsFlagged : IsFlagged (clear_added_dense d s)
    unfolding clear_added_dense
    clear_added_dense-IsFlagged =
        ground
          (arith, length-set s.added d 0, count_set-set s.added d 0, flag-le-count_set s.added d)

    -- A cleared flag reads 0, a set one is not 0, and no other flag changes.
    pub dirty-mark_dirty_dense :
        (j : ℕ)
        → not (get_or (mark_dirty_dense d s).dirty j 0 == 0)
          ≡ (j == d || not (get_or s.dirty j 0 == 0))
    unfolding mark_dirty_dense
    dirty-mark_dirty_dense j = ground (arith, get_or-set s.dirty d j 1 0)

    pub dirty-clear_dirty_dense :
        (j : ℕ)
        → get_or (clear_dirty_dense d s).dirty j 0 ≡ (if j == d then 0 else get_or s.dirty j 0)
    unfolding clear_dirty_dense
    dirty-clear_dirty_dense j = ground (arith, get_or-set s.dirty d j 0 0)

    pub added-clear_added_dense :
        (j : ℕ)
        → get_or (clear_added_dense d s).added j 0 ≡ (if j == d then 0 else get_or s.added j 0)
    unfolding clear_added_dense
    added-clear_added_dense j = ground (arith, get_or-set s.added d j 0 0)

  pub size-clear_dirty_dense : (clear_dirty_dense d s).size ≡ s.size
  unfolding clear_dirty_dense
  size-clear_dirty_dense = ground arith

  pub size-clear_added_dense : (clear_added_dense d s).size ≡ s.size
  unfolding clear_added_dense
  size-clear_added_dense = ground arith

  -- The other fields stay.
  pub mark_dirty_dense-IsDense : IsDense s → IsDense (mark_dirty_dense d s)
  unfolding mark_dirty_dense
  mark_dirty_dense-IsDense w =
      IsDense-congr s (mark_dirty_dense d s) (ground arith) (ground arith) (ground arith)
        (ground arith) (ground arith) (ground arith) w

  pub mark_dirty_dense-IsBuried : IsBuried s → IsBuried (mark_dirty_dense d s)
  unfolding mark_dirty_dense
  mark_dirty_dense-IsBuried w =
      IsBuried-congr s (mark_dirty_dense d s) (ground arith) (ground arith) (ground arith)
        (ground arith) (ground arith) w
