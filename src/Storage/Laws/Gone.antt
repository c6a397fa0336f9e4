-- ===== src/Storage/Laws/Gone.antt =====
-- What taking a component away comes to for a caller.
use ashiato.Base.{
  ℕ, ◌+◌, ◌-◌, ◌<◌, ◌≡◌, ◌≢◌, refl, ◌∙◌, true, false, not, ◌&&◌, ◌||◌, ◌==◌, arith, if◌then◌else◌,
  length, get_or, none, Bool-cases, inl, inr, ◌⊎◌,
}
use ashiato.EntityStore.{Entity, entity_index}
use ashiato.Storage.{
  Storage, npos, no_tombstone, tombstone_dirty, tombstone_destroy_entity, sparse_at, dense_index_at,
  contains,
}
use ashiato.Storage.Flags.{clear_dirty_dense, clear_added_dense}
use ashiato.Storage.Tombstones.{tombstone_at, mark_tombstone}
use ashiato.Storage.Erase.{erase_at, drop_last, fill_gap, remove, remove_for_destroy}
use ashiato.Storage.Access.{get, is_dirty}
use ashiato.Storage.Laws.Invariant.{
  IsDense, IsBuried, IsValid, contains_lem, contains-at, IsBuried-congr,
}
use ashiato.Storage.Laws.Erase.{
  erase_at-IsDense, erase_at-IsFlagged, dense-erase_at, sparse-erase_at, dirty-erase_at,
  size-erase_at, tag-erase_at, get_elem?-erase_at,
}
use ashiato.Storage.Laws.Frame.{
  SameEntries, mark_tombstone-SameEntries, SameEntries-IsDense, SameEntries-IsFlagged,
  SameEntries-contains, SameEntries-get,
}
use ashiato.Storage.Laws.Marked.{tombstone-mark_tombstone, mark_tombstone-IsBuried}
use ashiato.Storage.Laws.Put.{is_dirty_lem}

module _ {V : Type 0} where
  -- `s'` is `s` without the component at `i`, where a tombstone with these flags stands instead.
  pub record Gone (s s' : Storage V) (i flags : ℕ) : Type 0 where
    pub valid : IsValid s'
    pub holds : (j : ℕ) → contains s' j ≡ (not (j == i) && contains s j)
    pub reads : (j : ℕ) → get s' j ≡ (if j == i then none else get s j)
    pub marks : (j : ℕ) → is_dirty s' j ≡ (j == i || is_dirty s j)
    pub buried : tombstone_at s' i ≡ flags
    pub same_info : s'.info ≡ s.info

  module _ (s : Storage V) (i : ℕ) (w : IsValid s) (there : contains s i ≡ true) where
    d : ℕ
    d = sparse_at s i

    inside : (d < s.size) × (dense_index_at s d ≡ i)
    unfolding d
    inside = contains-at s i w.dense there

    erased-IsDense : IsDense (erase_at d s)
    erased-IsDense = erase_at-IsDense s d w.dense inside.0

    contains-erased : (j : ℕ) → contains (erase_at d s) j ≡ (not (j == i) && contains s j)
    contains-erased j =
        rw (contains_lem (erase_at d s) j erased-IsDense, contains_lem s j w.dense)
          (ground (
            arith,
            inside,
            sparse-erase_at s d w.dense inside.0 j,
            dense-erase_at s d w.dense inside.0 (sparse_at s j),
            dense-erase_at s d w.dense inside.0 d,
            size-erase_at s d w.dense inside.0,
            w.dense.inverse (s.size - 1),
          ))

    get-erased : (j : ℕ) → get (erase_at d s) j ≡ (if j == i then none else get s j)
    unfolding get
    get-erased j = ground (
      arith,
      inside,
      contains-erased j,
      contains_lem s j w.dense,
      tag-erase_at s d w.dense inside.0,
      sparse-erase_at s d w.dense inside.0 j,
      get_elem?-erase_at s d w.dense inside.0 (sparse_at s j),
      get_elem?-erase_at s d w.dense inside.0 d,
      w.dense.inverse (s.size - 1),
    )

    -- The flag of an entry that stays.
    dirty-erased :
        (j : ℕ)
        → j ≢ i
        → contains s j ≡ true
        → get_or (erase_at d s).dirty (sparse_at (erase_at d s) j) 0
          ≡ get_or s.dirty (sparse_at s j) 0
    dirty-erased j ne h = ground (
      arith,
      inside,
      contains_lem s j w.dense,
      sparse-erase_at s d w.dense inside.0 j,
      dirty-erase_at s d w.dense inside.0 w.flagged (sparse_at s j),
      dirty-erase_at s d w.dense inside.0 w.flagged d,
      w.dense.inverse (s.size - 1),
    )

    same_tombs :
        ((erase_at d s).tombstones ≡ s.tombstones)
        × ((erase_at d s).tombstone_indices ≡ s.tombstone_indices)
        × ((erase_at d s).tombstone_positions ≡ s.tombstone_positions)
        × ((erase_at d s).tombstone_entities ≡ s.tombstone_entities)
        × ((erase_at d s).tombstone_count ≡ s.tombstone_count)
        × ((erase_at d s).compact_lookup ≡ s.compact_lookup)
    unfolding erase_at drop_last fill_gap clear_dirty_dense clear_added_dense
    same_tombs = ground arith

    erased-IsBuried : IsBuried (erase_at d s)
    erased-IsBuried =
        let (a, b, c, e, n, _) = same_tombs in IsBuried-congr s (erase_at d s) a b c e n w.tombs

    module _ (entity : Entity) (same : entity_index entity ≡ i) (flags : ℕ)
        (nonzero : flags ≢ no_tombstone) (room : length s.tombstone_indices < npos) where
      buried_at : Storage V
      buried_at = mark_tombstone entity flags (erase_at d s)

      frame : SameEntries (erase_at d s) buried_at
      unfolding buried_at
      frame = mark_tombstone-SameEntries (erase_at d s) entity flags

      tombstone-buried :
          (j : ℕ) → tombstone_at buried_at j ≡ (if j == i then flags else tombstone_at s j)
      unfolding buried_at
      tombstone-buried j = ground (
        arith,
        same,
        (tombstone-mark_tombstone (erase_at d s) entity flags erased-IsBuried nonzero j).0,
        same_tombs.0,
      )

      buried-IsBuried : IsBuried buried_at
      unfolding buried_at
      buried-IsBuried =
          mark_tombstone-IsBuried (erase_at d s) entity flags erased-IsBuried nonzero
            (rw same_tombs.1 room)

      buried-Gone : Gone s buried_at i flags
      buried-Gone = record {
        valid = record {
          dense = SameEntries-IsDense frame erased-IsDense;
          flagged = SameEntries-IsFlagged frame (erase_at-IsFlagged s d w.dense inside.0 w.flagged);
          tombs = buried-IsBuried;
          ordinary = frame.same_lookup ∙ same_tombs.5 ∙ w.ordinary;
        };
        holds = λ j. SameEntries-contains frame j erased-IsDense ∙ contains-erased j;
        reads = λ j. SameEntries-get frame j erased-IsDense ∙ get-erased j;
        marks = λ j. ground (
          arith,
          is_dirty_lem buried_at j,
          is_dirty_lem s j,
          SameEntries-contains frame j erased-IsDense,
          contains-erased j,
          tombstone-buried j,
          dirty-erased j,
          frame.same_dirty,
          frame.same_sparse j,
        );
        buried = ground (arith, tombstone-buried i);
        same_info = frame.same_info ∙ tag-erase_at s d w.dense inside.0;
      }

  -- Removing a component that a well-formed storage contains returns true and leaves it well
  -- formed, without that index and with the others, their values and their dirty marks, and with a
  -- tombstone that makes the index dirty. Removing one that is missing returns false and changes
  -- nothing.
  pub remove_lem :
      (s : Storage V) (entity : Entity)
      → IsValid s
      → length s.tombstone_indices < npos
      → (contains s (entity_index entity) ≡ true
          → ((remove entity s).0 ≡ true)
            × Gone s (remove entity s).1 (entity_index entity) tombstone_dirty)
        × (contains s (entity_index entity) ≡ false → remove entity s ≡ (false, s))
  unfolding remove buried_at d
  remove_lem s entity w room = (
    λ there. simp there (
      refl,
      buried-Gone s (entity_index entity) w there entity refl tombstone_dirty (omega arith) room,
    ),
    λ out. simp out,
  )

  -- The same on the destruction of the entity, with the flag that tells the two apart.
  pub remove_for_destroy_lem :
      (s : Storage V) (entity : Entity)
      → IsValid s
      → length s.tombstone_indices < npos
      → (contains s (entity_index entity) ≡ true
          → Gone s
              (remove_for_destroy entity s)
              (entity_index entity)
              (tombstone_dirty + tombstone_destroy_entity))
        × (contains s (entity_index entity) ≡ false → remove_for_destroy entity s ≡ s)
  unfolding remove_for_destroy buried_at d
  remove_for_destroy_lem s entity w room = (
    λ there. simp there (
        buried-Gone s (entity_index entity) w there entity refl
          (tombstone_dirty + tombstone_destroy_entity) (omega arith) room),
    λ out. simp out,
  )

  -- On a well-formed storage with room for one more tombstone, `remove` of a component that is
  -- there returns true and leaves a well-formed storage without that index and with the others,
  -- their values and their dirty marks, and with a tombstone that makes the index dirty. `remove`
  -- of one that is missing returns false and changes nothing.
  pub remove-cases :
      (s : Storage V) (entity : Entity)
      → IsValid s
      → length s.tombstone_indices < npos
      → ((contains s (entity_index entity) ≡ true)
          × ((remove entity s).0 ≡ true)
          × Gone s (remove entity s).1 (entity_index entity) tombstone_dirty)
        ⊎ ((contains s (entity_index entity) ≡ false) × (remove entity s ≡ (false, s)))
  remove-cases s entity w room = elim (Bool-cases (contains s (entity_index entity))) [
    | inl there ↦
        inl (
          there,
          ((remove_lem s entity w room).0 there).0,
          ((remove_lem s entity w room).0 there).1,
        )
    | inr missing ↦ inr (missing, (remove_lem s entity w room).1 missing)
  ]

  -- On a well-formed storage with room for one more tombstone, `remove_for_destroy` of a component
  -- that is there leaves a well-formed storage without that index and with the others, their values
  -- and their dirty marks, and with a tombstone that makes the index dirty and has the flag for the
  -- destruction of the entity. Of a component that is missing it changes nothing.
  pub remove_for_destroy-cases :
      (s : Storage V) (entity : Entity)
      → IsValid s
      → length s.tombstone_indices < npos
      → ((contains s (entity_index entity) ≡ true)
          × Gone s
              (remove_for_destroy entity s)
              (entity_index entity)
              (tombstone_dirty + tombstone_destroy_entity))
        ⊎ ((contains s (entity_index entity) ≡ false) × (remove_for_destroy entity s ≡ s))
  remove_for_destroy-cases s entity w room = elim (Bool-cases (contains s (entity_index entity))) [
    | inl there ↦ inl (there, (remove_for_destroy_lem s entity w room).0 there)
    | inr missing ↦ inr (missing, (remove_for_destroy_lem s entity w room).1 missing)
  ]
