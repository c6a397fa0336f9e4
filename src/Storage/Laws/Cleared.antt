-- ===== src/Storage/Laws/Cleared.antt =====
-- `clear_dirty` and `clear_all_dirty`, and what `has_dirty_entries` tells.
use ashiato.Base.{
  ℕ, ◌≡◌, refl, ◌∙◌, ap, Bool, true, false, not, ◌&&◌, ◌||◌, ◌==◌, arith, get_or, length-fill,
  Bool-cases, inl, inr,
}
use ashiato.Base.Reads.{get_or-fill}
use ashiato.Base.Counting.{count_set-fill, flag-le-count_set}
use ashiato.Storage.{Storage, npos, no_tombstone, sparse_at, contains}
use ashiato.Storage.Flags.{clear_dirty_dense, clear_added_dense, clear_all_dirty, has_dirty_entries}
use ashiato.Storage.Tombstones.{has_tombstone, clear_tombstone}
use ashiato.Storage.Access.{get, is_dirty, clear_dirty}
use ashiato.Storage.Laws.Invariant.{
  IsDense, IsFlagged, IsBuried, IsValid, contains_lem, contains-at, has_tombstone_lem,
  IsDense-congr, IsBuried-congr,
}
use ashiato.Storage.Laws.Marks.{
  clear_dirty_dense-IsFlagged, clear_added_dense-IsFlagged, dirty-clear_dirty_dense,
  size-clear_dirty_dense,
}
use ashiato.Storage.Laws.Buried.{clear_tombstone-IsBuried, tombstone-clear_tombstone}
use ashiato.Storage.Laws.Frame.{
  clear_tombstone-SameEntries, SameEntries, SameEntries-IsDense, SameEntries-IsFlagged,
  SameEntries-contains, SameEntries-get,
}
use ashiato.Storage.Laws.Flagged.{
  IsUnlisted, unflagged-IsUnlisted, untombed-IsUnlisted, untouched-IsUnlisted,
}
use ashiato.Storage.Laws.Put.{is_dirty_lem}

module _ {V : Type 0} where
  -- `s'` holds what `s` holds, and `marks` says which of its indices are dirty.
  pub record Remarked (s s' : Storage V) (marks : ℕ → Bool) : Type 0 where
    pub valid : IsValid s'
    pub holds : (j : ℕ) → contains s' j ≡ contains s j
    pub reads : (j : ℕ) → get s' j ≡ get s j
    pub dirty_at : (j : ℕ) → is_dirty s' j ≡ marks j

  module _ (s : Storage V) (d : ℕ) where
    unflagged : Storage V
    unflagged = clear_added_dense d (clear_dirty_dense d s)

    unflagged_fields :
        (contains unflagged ≡ contains s)
        × (get unflagged ≡ get s)
        × (unflagged.tombstones ≡ s.tombstones)
        × (unflagged.dirty ≡ (clear_dirty_dense d s).dirty)
        × (unflagged.sparse ≡ s.sparse)
    unfolding unflagged clear_added_dense clear_dirty_dense contains get
    unflagged_fields = elim (Bool-cases (get_or s.dirty d 0 == 0)) [
      | inl p ↦ simp p (elim (Bool-cases (get_or s.added d 0 == 0)) [
        | inl q ↦ simp q (refl, refl, refl, refl, refl)
        | inr q ↦ simp q (refl, refl, refl, refl, refl)
      ])
      | inr p ↦ simp p (elim (Bool-cases (get_or s.added d 0 == 0)) [
        | inl q ↦ simp q (refl, refl, refl, refl, refl)
        | inr q ↦ simp q (refl, refl, refl, refl, refl)
      ])
    ]

    unflagged-IsDense : IsDense s → IsDense unflagged
    unfolding unflagged clear_added_dense clear_dirty_dense
    unflagged-IsDense =
        IsDense-congr s unflagged (ground arith) (λ j. ground arith) (ground arith) (ground arith)
          (ground arith) (ground arith)

    unflagged-IsBuried : IsBuried s → IsBuried unflagged
    unfolding unflagged clear_added_dense clear_dirty_dense
    unflagged-IsBuried =
        IsBuried-congr s unflagged (ground arith) (ground arith) (ground arith) (ground arith)
          (ground arith)

    unflagged-ordinary : unflagged.compact_lookup ≡ s.compact_lookup
    unfolding unflagged clear_added_dense clear_dirty_dense
    unflagged-ordinary = ground arith

  module _ (s : Storage V) (i : ℕ) (w : IsValid s) where
    unflagged-Remarked :
        contains s i ≡ true
        → Remarked s (unflagged s (sparse_at s i)) (λ j. not (j == i) && is_dirty s j)
    unflagged-Remarked there =
        let (inside, back) = contains-at s i w.dense there in
        let f = clear_dirty_dense-IsFlagged s d w.flagged inside in
        let (c, g, tb, di, sp) = unflagged_fields s d in
        record {
          valid = record {
            dense = unflagged-IsDense s d w.dense;
            flagged =
                unfold unflagged in
                clear_added_dense-IsFlagged (clear_dirty_dense d s) d f
                  (omega (arith, size-clear_dirty_dense s d));
            tombs = unflagged-IsBuried s d w.tombs;
            ordinary = unflagged-ordinary s d ∙ w.ordinary;
          };
          holds = λ j. ap (λ p. p j) c;
          reads = λ j. ap (λ p. p j) g;
          dirty_at = λ j. ground (
            arith,
            is_dirty_lem (unflagged s d) j,
            is_dirty_lem s j,
            ap (λ p. p j) c,
            contains_lem s j w.dense,
            dirty-clear_dirty_dense s d w.flagged inside (sparse_at s j),
          );
        }
      where
        d : ℕ
        d = sparse_at s i

    untombed-Remarked :
        contains s i ≡ false → Remarked s (clear_tombstone i s) (λ j. not (j == i) && is_dirty s j)
    untombed-Remarked out = record {
      valid = record {
        dense = SameEntries-IsDense e w.dense;
        flagged = SameEntries-IsFlagged e w.flagged;
        tombs = clear_tombstone-IsBuried s i w.tombs;
        ordinary = e.same_lookup ∙ w.ordinary;
      };
      holds = λ j. SameEntries-contains e j w.dense;
      reads = λ j. SameEntries-get e j w.dense;
      dirty_at = λ j. ground (
        arith,
        is_dirty_lem (clear_tombstone i s) j,
        is_dirty_lem s j,
        SameEntries-contains e j w.dense,
        e.same_dirty,
        e.same_sparse j,
        tombstone-clear_tombstone s i w.tombs j,
      );
    }
      where
        e : SameEntries s (clear_tombstone i s)
        e = clear_tombstone-SameEntries s i

  -- On a well-formed storage `clear_dirty` says whether the index was contained or had a tombstone.
  -- Afterwards the storage is well formed, the index is not dirty, and `each_dirty` and `each_added`
  -- hand out what they did before, but nothing for this index; every index is contained and reads as
  -- before, and every other one is dirty as before.
  pub clear_dirty_lem :
      (s : Storage V) (i : ℕ)
      → IsValid s
      → ((clear_dirty i s).0 ≡ (contains s i || has_tombstone s i))
        × Remarked s (clear_dirty i s).1 (λ j. not (j == i) && is_dirty s j)
        × IsUnlisted s (clear_dirty i s).1 i
  unfolding clear_dirty unflagged
  clear_dirty_lem s i w = elim (Bool-cases (contains s i)) [
    | inl there ↦
        simp there
          (refl, unflagged-Remarked s i w there, unflagged-IsUnlisted s i w.dense w.flagged there)
    | inr out ↦ elim (Bool-cases (has_tombstone s i)) [
      | inl tomb ↦
          simp (out, tomb) (refl, untombed-Remarked s i w out, untombed-IsUnlisted s i w.dense out)
      | inr free ↦
          simp (out, free)
            (
              refl,
              record {
                valid = w;
                holds = λ j. refl;
                reads = λ j. refl;
                dirty_at = λ j. ground (arith, is_dirty_lem s i, has_tombstone_lem s i);
              },
              untouched-IsUnlisted s i w.dense out,
            )
    ]
  ]

  cleared_flags : (s : Storage V) → IsFlagged s → IsFlagged (clear_all_dirty s)
  unfolding clear_all_dirty
  cleared_flags s w = record {
    dirty_length = length-fill s.dirty 0 ∙ w.dirty_length;
    added_length = length-fill s.added 0 ∙ w.added_length;
    dirty_counted = omega (arith, count_set-fill s.dirty);
    added_counted = omega (arith, count_set-fill s.added);
  }

  cleared_tombs : (s : Storage V) → IsBuried s → IsBuried (clear_all_dirty s)
  unfolding clear_all_dirty
  cleared_tombs s w = record {
    positions_length = omega (
      arith,
      length-fill s.tombstone_positions npos,
      length-fill s.tombstones no_tombstone,
      w.positions_length,
    );
    entities_length = omega (
      arith,
      length-fill s.tombstone_entities 0,
      length-fill s.tombstones no_tombstone,
      w.entities_length,
    );
    listed = λ i h. absurd (h (get_or-fill s.tombstones no_tombstone i));
    buried = λ p h. elim h [ ];
    tombstones_counted = refl;
    few = omega arith;
  }

  cleared_reads :
      (s : Storage V) (j : ℕ)
      → (contains (clear_all_dirty s) j ≡ contains s j)
        × (get (clear_all_dirty s) j ≡ get s j)
        × (is_dirty (clear_all_dirty s) j ≡ false)
  unfolding clear_all_dirty contains get is_dirty has_tombstone
  cleared_reads s j = (
    refl,
    refl,
    ground (arith, get_or-fill s.dirty 0 (sparse_at s j), get_or-fill s.tombstones no_tombstone j),
  )

  -- After `clear_all_dirty` nothing is dirty, `has_dirty_entries` says so, and the components and
  -- their values are those of before.
  pub clear_all_dirty_lem :
      (s : Storage V)
      → IsValid s
      → Remarked s (clear_all_dirty s) (λ j. false)
        × (has_dirty_entries (clear_all_dirty s) ≡ false)
  unfolding clear_all_dirty has_dirty_entries
  clear_all_dirty_lem s w = (
    record {
      valid = record {
        dense =
            IsDense-congr s (clear_all_dirty s) refl (λ i. refl) (omega arith) refl refl refl
              w.dense;
        flagged = cleared_flags s w.flagged;
        tombs = cleared_tombs s w.tombs;
        ordinary = w.ordinary;
      };
      holds = λ j. (cleared_reads s j).0;
      reads = λ j. (cleared_reads s j).1;
      dirty_at = λ j. (cleared_reads s j).2;
    },
    refl,
  )

  -- A storage that `has_dirty_entries` calls clean has no dirty index.
  pub clean-not_dirty :
      (s : Storage V) (j : ℕ) → IsValid s → has_dirty_entries s ≡ false → is_dirty s j ≡ false
  unfolding has_dirty_entries
  clean-not_dirty s j w h = ground (
    arith,
    is_dirty_lem s j,
    flag-le-count_set s.dirty (sparse_at s j),
    w.flagged.dirty_counted,
    w.tombs.listed j,
    w.tombs.tombstones_counted,
  )
