-- ===== src/Storage/Laws/Flagged.antt =====
-- `each_dirty` and `each_added` where the flags of one index are cleared.
use ashiato.Base.{
  ℕ, zero, suc, ◌+◌, ◌<◌, ◌≤◌, ◌≡◌, refl, ap, ◌∙◌, true, false, ◌==◌, ◌||◌, if◌then◌else◌, List, [],
  ◌∷◌, Option, get_or, Bool-cases, inl, inr, ==_iff, arith,
}
use ashiato.Storage.{Storage, sparse_at, dense_index_at, contains}
use ashiato.Storage.Flags.{clear_dirty_dense, clear_added_dense}
use ashiato.Storage.Tombstones.{clear_tombstone}
use ashiato.Storage.Access.{get_dense, each_flagged, each_dirty, each_added}
use ashiato.Storage.Laws.Invariant.{IsDense, IsFlagged, contains-at, dense-contains}
use ashiato.Storage.Laws.Marks.{
  clear_dirty_dense-IsFlagged, dirty-clear_dirty_dense, added-clear_added_dense,
  size-clear_dirty_dense,
}
use ashiato.Storage.Laws.Frame.{SameEntries, clear_tombstone-SameEntries}

module _ {V : Type 0} where
  -- The callbacks without those for one index.
  abbrev pub without : ℕ → List (ℕ × Option V) → List (ℕ × Option V)
  without i [] = []
  without i ((j, v) ∷ rest) = let kept = without i rest in if j == i then kept else (j, v) ∷ kept

  -- The flags `after` are the flags `before` without that of the index.
  abbrev Cleared : Storage V → ℕ → List ℕ → List ℕ → Type 0
  Cleared s i before after =
      (d : ℕ)
      → d < s.size
      → (get_or after d 0 == 0) ≡ (dense_index_at s d == i || get_or before d 0 == 0)

  each_flagged-without :
      (s s' : Storage V) (i : ℕ) (before after : List ℕ) (dense rounds : ℕ)
      → ((d : ℕ) → dense_index_at s' d ≡ dense_index_at s d)
      → ((d : ℕ) → get_dense s' d ≡ get_dense s d)
      → Cleared s i before after
      → dense + rounds ≤ s.size
      → each_flagged after dense rounds s' ≡ without i (each_flagged before dense rounds s)
  unfolding each_flagged
  each_flagged-without s s' i before after dense zero same held c le = refl
  each_flagged-without s s' i before after dense (suc rounds) same held c le = ground (
    arith,
    same dense,
    held dense,
    c dense (omega arith),
    each_flagged-without s s' i before after (dense + 1) rounds same held c (omega arith),
  )

  same_get_dense :
      (s s' : Storage V) (d : ℕ)
      → s'.info ≡ s.info
      → s'.values ≡ s.values
      → get_dense s' d ≡ get_dense s d
  unfolding get_dense
  same_get_dense s s' d i v = simp (i, v) refl

  -- The index of a dense entry is `i` exactly at the position of `i`.
  at_position :
      (s : Storage V) (i d : ℕ)
      → IsDense s
      → contains s i ≡ true
      → d < s.size
      → (dense_index_at s d == i) ≡ (d == sparse_at s i)
  at_position s i d w there lt = ground (arith, contains-at s i w there, w.inverse d lt)

  nowhere :
      (s : Storage V) (i d : ℕ)
      → IsDense s
      → contains s i ≡ false
      → d < s.size
      → (dense_index_at s d == i) ≡ false
  nowhere s i d w missing lt = elim (Bool-cases (dense_index_at s d == i)) [
    | inl same ↦ absurd (
        ground (
          arith,
          ap (contains s) ((==_iff (dense_index_at s d) i).0 same),
          dense-contains s d w lt,
        ))
    | inr other ↦ other
  ]

  -- What `each_dirty` and `each_added` hand out, without the index.
  pub record IsUnlisted (s s' : Storage V) (i : ℕ) : Type 0 where
    pub dirty : each_dirty s' ≡ without i (each_dirty s)
    pub added : each_added s' ≡ without i (each_added s)

  Cleared-IsUnlisted :
      (s s' : Storage V) (i : ℕ)
      → ((d : ℕ) → dense_index_at s' d ≡ dense_index_at s d)
      → ((d : ℕ) → get_dense s' d ≡ get_dense s d)
      → s'.size ≡ s.size
      → Cleared s i s.dirty s'.dirty
      → Cleared s i s.added s'.added
      → IsUnlisted s s' i
  unfolding each_dirty each_added
  Cleared-IsUnlisted s s' i same held size dirty added = record {
    dirty =
        ap (λ n. each_flagged s'.dirty 0 n s') size
        ∙ each_flagged-without s s' i s.dirty s'.dirty 0 s.size same held dirty (omega arith);
    added =
        ap (λ n. each_flagged s'.added 0 n s') size
        ∙ each_flagged-without s s' i s.added s'.added 0 s.size same held added (omega arith);
  }

  -- Clearing both flags of a contained index,
  pub unflagged-IsUnlisted :
      (s : Storage V) (i : ℕ)
      → IsDense s
      → IsFlagged s
      → contains s i ≡ true
      → IsUnlisted s (clear_added_dense (sparse_at s i) (clear_dirty_dense (sparse_at s i) s)) i
  unfolding clear_added_dense clear_dirty_dense get_dense
  unflagged-IsUnlisted s i w f there =
      let d : ℕ = sparse_at s i in
      let m : Storage V = clear_dirty_dense d s in
      let inside : d < s.size = (contains-at s i w there).0 in
      let g : IsFlagged m = clear_dirty_dense-IsFlagged s d f inside in
      let inside' : d < m.size = omega (arith, size-clear_dirty_dense s d, inside) in
      Cleared-IsUnlisted s (clear_added_dense d m) i (λ j. ground arith) (λ j. ground arith)
        (ground arith)
        (λ j lt.
          ground (arith, dirty-clear_dirty_dense s d f inside j, at_position s i j w there lt))
        (λ j lt.
          ground (arith, added-clear_added_dense m d g inside' j, at_position s i j w there lt))

  -- taking away the tombstone of one that is missing,
  pub untombed-IsUnlisted :
      (s : Storage V) (i : ℕ)
      → IsDense s
      → contains s i ≡ false
      → IsUnlisted s (clear_tombstone i s) i
  untombed-IsUnlisted s i w missing =
      let e : SameEntries s (clear_tombstone i s) = clear_tombstone-SameEntries s i in
      Cleared-IsUnlisted s (clear_tombstone i s) i (λ j. ground (arith, e.same_indices))
        (λ j. same_get_dense s (clear_tombstone i s) j e.same_info e.same_values) e.same_size
        (λ j lt. ground (arith, e.same_dirty, nowhere s i j w missing lt))
        (λ j lt. ground (arith, e.same_added, nowhere s i j w missing lt))

  -- and leaving a missing one alone.
  pub untouched-IsUnlisted :
      (s : Storage V) (i : ℕ) → IsDense s → contains s i ≡ false → IsUnlisted s s i
  untouched-IsUnlisted s i w missing =
      Cleared-IsUnlisted s s i (λ j. refl) (λ j. refl) refl
        (λ j lt. ground (arith, nowhere s i j w missing lt))
        (λ j lt. ground (arith, nowhere s i j w missing lt))
