-- ===== src/Storage/Laws/Insert.antt =====
-- The insertion of an entry, with or without a value, at the end of the dense vectors.
use ashiato.Base.{
  ℕ, ◌+◌, ◌<◌, ◌≤◌, ◌≡◌, refl, ◌∙◌, true, false, not, ◌&&◌, ◌||◌, ◌==◌, arith, if◌then◌else◌, List,
  length, get_or, push_back, length-set, length-push_back,
}
use ashiato.Base.Reads.{get_or-set, get_or-push_back}
use ashiato.Base.Counting.{count_set-push_back}
use ashiato.EntityStore.{Entity, entity_index}
use ashiato.Storage.{Storage, npos, no_tombstone, sparse_at, contains}
use ashiato.Storage.Tombstones.{tombstone_at, ensure_sparse, clear_tombstone_for_entity}
use ashiato.Storage.Insert.{
  push_entry, construct_value, make_room, commit_insert_metadata, insert_value,
  ensure_insert_capacity, ensure_capacity,
}
use ashiato.Storage.Laws.Invariant.{IsDense, IsFlagged, IsBuried, contains_lem, IsBuried-congr}
use ashiato.Storage.Laws.Tombs.{ensure_sparse-reads, ensure_sparse-lengths, ensure_sparse-IsBuried}
use ashiato.Storage.Laws.Frame.{
  SameEntries, make_room-SameEntries, clear_tombstone_for_entity-SameEntries,
  clear_tombstone_for_entity-IsBuried, tombstone-clear_tombstone_for_entity,
}

module _ {V : Type 0} where
  -- `t` is `s` with an entry for the index `i` at the end, both of its flags set.
  pub record Entered (s t : Storage V) (i : ℕ) : Type 0 where
    pub indices : t.dense_indices ≡ push_back s.dense_indices i
    pub sparse_reads : (j : ℕ) → sparse_at t j ≡ (if j == i then s.size else sparse_at s j)
    pub wide : (length s.sparse ≤ length t.sparse) × (i < length t.sparse)
    pub flags : (t.dirty ≡ push_back s.dirty 1) × (t.added ≡ push_back s.added 1)
    pub counts : (t.dirty_count ≡ s.dirty_count + 1) × (t.added_count ≡ s.added_count + 1)
    pub grown : t.size ≡ s.size + 1
    pub same_info : t.info ≡ s.info
    pub same_lookup : t.compact_lookup ≡ s.compact_lookup

  module _ (s t : Storage V) (i : ℕ) (e : Entered s t i) where
    pub Entered-IsFlagged : IsFlagged s → IsFlagged t
    Entered-IsFlagged f = record {
      dirty_length =
          rw (e.flags.0, e.grown) (omega (arith, length-push_back s.dirty 1, f.dirty_length));
      added_length =
          rw (e.flags.1, e.grown) (omega (arith, length-push_back s.added 1, f.added_length));
      dirty_counted =
          rw (e.flags.0, e.counts.0)
            (omega (arith, count_set-push_back s.dirty 1, f.dirty_counted));
      added_counted =
          rw (e.flags.1, e.counts.1)
            (omega (arith, count_set-push_back s.added 1, f.added_counted));
    }

    module _ (w : IsDense s) (new : contains s i ≡ false) where
      pub Entered-IsDense :
          s.size + 1 < npos → (t.info.tag ≡ false → length t.values ≡ t.size) → IsDense t
      Entered-IsDense room values = record {
        dense_length =
            rw (e.indices, e.grown)
              (omega (arith, length-push_back s.dense_indices i, w.dense_length));
        dense_inside = λ d h. rw e.indices (
            ground (
              arith,
              get_or-push_back s.dense_indices i d npos,
              e.wide,
              e.grown,
              w.dense_length,
              w.dense_inside d,
            ));
        inverse = λ d h.
            rw (e.indices, e.sparse_reads)
              (ground (
                arith,
                get_or-push_back s.dense_indices i d npos,
                e.grown,
                w.dense_length,
                w.inverse d,
                contains_lem s i w,
              ));
        value_length = values;
        small = rw e.grown room;
      }

      pub Entered-contains : (j : ℕ) → IsDense t → contains t j ≡ (j == i || contains s j)
      Entered-contains j wt =
          rw (contains_lem t j wt, contains_lem s j w, e.sparse_reads j, e.indices, e.grown)
            (ground (
              arith,
              get_or-push_back s.dense_indices i (if j == i then s.size else sparse_at s j) npos,
              w.dense_length,
            ))

      -- The new entry is dirty and added, the others are what they were.
      pub Entered-dirty :
          (j : ℕ)
          → IsFlagged s
          → contains s j || j == i ≡ true
          → not (get_or t.dirty (sparse_at t j) 0 == 0)
            ≡ (j == i || not (get_or s.dirty (sparse_at s j) 0 == 0))
      Entered-dirty j f h =
          rw (e.sparse_reads j, e.flags.0)
            (ground (
              arith,
              get_or-push_back s.dirty 1 (if j == i then s.size else sparse_at s j) 0,
              f.dirty_length,
              contains_lem s j w,
            ))

  -- `commit_insert_metadata` after the room is made, and after a value is constructed.
  module _ (s : Storage V) (entity : Entity) where
    abbrev i : ℕ
    i = entity_index entity

    module _ (m : Storage V) (vs : List V) (same : SameEntries s m) (b : i < length m.sparse) where
      base : Storage V
      base = record m { values = vs }

      freed : SameEntries base (clear_tombstone_for_entity entity base)
      freed = clear_tombstone_for_entity-SameEntries base entity

      entered : Entered s (commit_insert_metadata entity base) i
      unfolding commit_insert_metadata push_entry base
      entered = record {
        indices = rw (freed.same_indices, same.same_indices);
        sparse_reads = λ j. ground (
          arith,
          get_or-set (clear_tombstone_for_entity entity base).sparse i j
              (clear_tombstone_for_entity entity base).size npos,
          freed.wider,
          freed.same_sparse j,
          same.same_sparse j,
          freed.same_size,
          same.same_size,
          b,
        );
        wide = (
          omega (
            arith,
            length-set (clear_tombstone_for_entity entity base).sparse i
                (clear_tombstone_for_entity entity base).size,
            freed.wider,
            same.wider,
          ),
          omega (
            arith,
            length-set (clear_tombstone_for_entity entity base).sparse i
                (clear_tombstone_for_entity entity base).size,
            freed.wider,
            b,
          ),
        );
        flags = (rw (freed.same_dirty, same.same_dirty), rw (freed.same_added, same.same_added));
        counts = (
          rw (freed.same_dirty_count, same.same_dirty_count),
          rw (freed.same_added_count, same.same_added_count),
        );
        grown = rw (freed.same_size, same.same_size);
        same_info = freed.same_info ∙ same.same_info;
        same_lookup = freed.same_lookup ∙ same.same_lookup;
      }

      entered_values : (commit_insert_metadata entity base).values ≡ vs
      unfolding commit_insert_metadata push_entry base
      entered_values = freed.same_values

      entered-IsBuried : IsBuried m → IsBuried (commit_insert_metadata entity base)
      unfolding commit_insert_metadata push_entry base
      entered-IsBuried w =
          IsBuried-congr (clear_tombstone_for_entity entity base)
            (commit_insert_metadata entity base) refl refl refl refl refl
            (clear_tombstone_for_entity-IsBuried base entity
              (IsBuried-congr m base refl refl refl refl refl w))

      entered_tombstone :
          (j : ℕ)
          → IsBuried m
          → tombstone_at (commit_insert_metadata entity base) j ≡ (
              if j == entity_index entity
                && get_or m.tombstone_entities (entity_index entity) 0 == entity.value
              then no_tombstone
              else tombstone_at m j)
      unfolding commit_insert_metadata push_entry base
      entered_tombstone j w =
          tombstone-clear_tombstone_for_entity base entity j
            (IsBuried-congr m base refl refl refl refl refl w)

    -- The storage when the room is made.
    make_room-IsBuried : IsBuried s → IsBuried (make_room entity s)
    unfolding make_room ensure_insert_capacity ensure_capacity
    make_room-IsBuried w =
        IsBuried-congr (ensure_sparse i s) (make_room entity s) (ground arith) (ground arith)
          (ground arith) (ground arith) (ground arith) (ensure_sparse-IsBuried s i w)

    make_room-reads :
        (j : ℕ)
        → (tombstone_at (make_room entity s) j ≡ tombstone_at s j)
          × (get_or (make_room entity s).tombstone_entities j 0 ≡ get_or s.tombstone_entities j 0)
          × (i < length (make_room entity s).sparse)
    unfolding make_room ensure_insert_capacity ensure_capacity
    make_room-reads j = (
      ground (arith, (ensure_sparse-reads s i j).1),
      ground (arith, (ensure_sparse-reads s i j).3),
      ground (arith, (ensure_sparse-lengths s i).0),
    )

    -- The two insertions.
    unfoldable pub inserted_tag : Storage V
    inserted_tag = commit_insert_metadata entity (make_room entity s)

    pub Entered-tag : Entered s inserted_tag i
    unfolding inserted_tag base
    Entered-tag =
        entered (make_room entity s) (make_room entity s).values (make_room-SameEntries s entity)
          (make_room-reads 0).2

    pub Entered-value : (v : V) → Entered s (insert_value entity v s) i
    unfolding insert_value construct_value base
    Entered-value v =
        entered (make_room entity s) (push_back (make_room entity s).values v)
          (make_room-SameEntries s entity) (make_room-reads 0).2

    pub values-insert_value : (v : V) → (insert_value entity v s).values ≡ push_back s.values v
    unfolding insert_value construct_value base
    values-insert_value v =
        entered_values (make_room entity s) (push_back (make_room entity s).values v)
          (make_room-SameEntries s entity) (make_room-reads 0).2
        ∙ rw (make_room-SameEntries s entity).same_values refl

    -- The tombstone of the index goes if it was left for this very entity.
    pub tombstone-inserted :
        (j : ℕ)
        → IsBuried s
        → tombstone_at inserted_tag j ≡ (
            if j == entity_index entity
              && get_or s.tombstone_entities (entity_index entity) 0 == entity.value
            then no_tombstone
            else tombstone_at s j)
    unfolding inserted_tag base
    tombstone-inserted j w =
        rw (← (make_room-reads j).0, ← (make_room-reads (entity_index entity)).1)
          (entered_tombstone (make_room entity s) (make_room entity s).values
            (make_room-SameEntries s entity) (make_room-reads 0).2 j (make_room-IsBuried w))

    pub tombstone-insert_value :
        (v : V) (j : ℕ)
        → IsBuried s
        → tombstone_at (insert_value entity v s) j ≡ (
            if j == entity_index entity
              && get_or s.tombstone_entities (entity_index entity) 0 == entity.value
            then no_tombstone
            else tombstone_at s j)
    unfolding insert_value construct_value base
    tombstone-insert_value v j w =
        rw (← (make_room-reads j).0, ← (make_room-reads (entity_index entity)).1)
          (entered_tombstone (make_room entity s) (push_back (make_room entity s).values v)
            (make_room-SameEntries s entity) (make_room-reads 0).2 j (make_room-IsBuried w))

    pub inserted_tag-IsBuried : IsBuried s → IsBuried inserted_tag
    unfolding inserted_tag base
    inserted_tag-IsBuried w =
        entered-IsBuried (make_room entity s) (make_room entity s).values
          (make_room-SameEntries s entity) (make_room-reads 0).2 (make_room-IsBuried w)

    pub insert_value-IsBuried : (v : V) → IsBuried s → IsBuried (insert_value entity v s)
    unfolding insert_value construct_value base
    insert_value-IsBuried v w =
        entered-IsBuried (make_room entity s) (push_back (make_room entity s).values v)
          (make_room-SameEntries s entity) (make_room-reads 0).2 (make_room-IsBuried w)
