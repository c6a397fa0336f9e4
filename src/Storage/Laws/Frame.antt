-- ===== src/Storage/Laws/Frame.antt =====
-- The operations that leave the dense entries alone.
use ashiato.Base.{
  ℕ, ◌+◌, ◌≤◌, ◌≡◌, refl, ◌∙◌, not, ◌&&◌, ◌||◌, ◌==◌, leb, arith, if◌then◌else◌, length, get_or,
  length-grow_to, Bool-cases, inl, inr, ◌⊎◌, ap,
}
use ashiato.Base.Reads.{get_or-past, get_or-grow_to}
use ashiato.EntityStore.{Entity, entity_index}
use ashiato.Storage.{Storage, npos, no_tombstone, sparse_at, contains}
use ashiato.Storage.Tombstones.{
  tombstone_at, has_tombstone, ensure_sparse, erase_tombstone_index, put_tombstone, list_tombstone,
  widen_entities, mark_tombstone, clear_tombstone, clear_tombstone_for_entity,
}
use ashiato.Storage.Insert.{ensure_capacity, ensure_insert_capacity, make_room}
use ashiato.Storage.Access.{get}
use ashiato.Storage.Laws.Invariant.{
  IsDense, IsFlagged, IsBuried, contains_lem, has_tombstone_lem, IsDense-congr, IsFlagged-congr,
}
use ashiato.Storage.Laws.Buried.{clear_tombstone-IsBuried, tombstone-clear_tombstone}

module _ {V : Type 0} where
  -- `t` holds the dense entries of `s`.
  pub record SameEntries (s t : Storage V) : Type 0 where
    pub same_indices : t.dense_indices ≡ s.dense_indices
    pub same_sparse : (i : ℕ) → sparse_at t i ≡ sparse_at s i
    pub wider : length s.sparse ≤ length t.sparse
    pub same_values : t.values ≡ s.values
    pub same_size : t.size ≡ s.size
    pub same_info : t.info ≡ s.info
    pub same_dirty : t.dirty ≡ s.dirty
    pub same_added : t.added ≡ s.added
    pub same_dirty_count : t.dirty_count ≡ s.dirty_count
    pub same_added_count : t.added_count ≡ s.added_count
    pub same_lookup : t.compact_lookup ≡ s.compact_lookup

  SameEntries-refl : (s : Storage V) → SameEntries s s
  SameEntries-refl s = record {
    same_indices = refl;
    same_sparse = λ i. refl;
    wider = omega arith;
    same_values = refl;
    same_size = refl;
    same_info = refl;
    same_dirty = refl;
    same_added = refl;
    same_dirty_count = refl;
    same_added_count = refl;
    same_lookup = refl;
  }

  pub SameEntries-trans : {r s t : Storage V} → SameEntries r s → SameEntries s t → SameEntries r t
  SameEntries-trans a b = record {
    same_indices = b.same_indices ∙ a.same_indices;
    same_sparse = λ i. b.same_sparse i ∙ a.same_sparse i;
    wider = omega (arith, a.wider, b.wider);
    same_values = b.same_values ∙ a.same_values;
    same_size = b.same_size ∙ a.same_size;
    same_info = b.same_info ∙ a.same_info;
    same_dirty = b.same_dirty ∙ a.same_dirty;
    same_added = b.same_added ∙ a.same_added;
    same_dirty_count = b.same_dirty_count ∙ a.same_dirty_count;
    same_added_count = b.same_added_count ∙ a.same_added_count;
    same_lookup = b.same_lookup ∙ a.same_lookup;
  }

  module _ {s t : Storage V} (e : SameEntries s t) where
    pub SameEntries-IsDense : IsDense s → IsDense t
    SameEntries-IsDense =
        IsDense-congr s t e.same_indices e.same_sparse e.wider (ap length e.same_values) e.same_size
          e.same_info

    pub SameEntries-IsFlagged : IsFlagged s → IsFlagged t
    SameEntries-IsFlagged =
        IsFlagged-congr s t e.same_dirty e.same_added e.same_size e.same_dirty_count
          e.same_added_count

    pub SameEntries-contains : (i : ℕ) → IsDense s → contains t i ≡ contains s i
    SameEntries-contains i w = rw (
      contains_lem t i (SameEntries-IsDense w),
      contains_lem s i w,
      e.same_sparse i,
      e.same_size,
      e.same_indices,
    )

    pub SameEntries-get : (i : ℕ) → IsDense s → get t i ≡ get s i
    unfolding get
    SameEntries-get i w = rw (SameEntries-contains i w, e.same_info, e.same_values, e.same_sparse i)

  module _ (s : Storage V) (i : ℕ) where
    pub ensure_sparse-SameEntries : SameEntries s (ensure_sparse i s)
    unfolding ensure_sparse
    ensure_sparse-SameEntries = record {
      same_indices = refl;
      same_sparse = λ j. get_or-grow_to s.sparse i npos j;
      wider = omega (arith, length-grow_to s.sparse i npos);
      same_values = refl;
      same_size = refl;
      same_info = refl;
      same_dirty = refl;
      same_added = refl;
      same_dirty_count = refl;
      same_added_count = refl;
      same_lookup = refl;
    }

    pub clear_tombstone-SameEntries : SameEntries s (clear_tombstone i s)
    unfolding clear_tombstone erase_tombstone_index
    clear_tombstone-SameEntries = record {
      same_indices = ground arith;
      same_sparse = λ j. ground arith;
      wider = ground arith;
      same_values = ground arith;
      same_size = ground arith;
      same_info = ground arith;
      same_dirty = ground arith;
      same_added = ground arith;
      same_dirty_count = ground arith;
      same_added_count = ground arith;
      same_lookup = ground arith;
    }

  widen_entities-SameEntries : (s : Storage V) → SameEntries s (widen_entities s)
  unfolding widen_entities
  widen_entities-SameEntries s = record {
    same_indices = ground arith;
    same_sparse = λ j. ground arith;
    wider = ground arith;
    same_values = ground arith;
    same_size = ground arith;
    same_info = ground arith;
    same_dirty = ground arith;
    same_added = ground arith;
    same_dirty_count = ground arith;
    same_added_count = ground arith;
    same_lookup = ground arith;
  }

  put_list-SameEntries :
      (s : Storage V) (i flags value : ℕ)
      → SameEntries s (put_tombstone i flags value (list_tombstone i flags s))
  unfolding put_tombstone list_tombstone erase_tombstone_index
  put_list-SameEntries s i flags value = record {
    same_indices = ground arith;
    same_sparse = λ j. ground arith;
    wider = ground arith;
    same_values = ground arith;
    same_size = ground arith;
    same_info = ground arith;
    same_dirty = ground arith;
    same_added = ground arith;
    same_dirty_count = ground arith;
    same_added_count = ground arith;
    same_lookup = ground arith;
  }

  module _ (s : Storage V) (n : ℕ) where
    pub ensure_capacity-SameEntries : SameEntries s (ensure_insert_capacity n s)
    unfolding ensure_insert_capacity ensure_capacity
    ensure_capacity-SameEntries = record {
      same_indices = ground arith;
      same_sparse = λ j. ground arith;
      wider = ground arith;
      same_values = ground arith;
      same_size = ground arith;
      same_info = ground arith;
      same_dirty = ground arith;
      same_added = ground arith;
      same_dirty_count = ground arith;
      same_added_count = ground arith;
      same_lookup = ground arith;
    }

  module _ (s : Storage V) (entity : Entity) where
    -- Two of the three returns leave the storage alone.
    for_entity_cases :
        (clear_tombstone_for_entity entity s ≡ s)
        ⊎ (clear_tombstone_for_entity entity s ≡ clear_tombstone (entity_index entity) s)
    unfolding clear_tombstone_for_entity
    for_entity_cases = elim (Bool-cases (has_tombstone s (entity_index entity))) [
      | inr out ↦ inl (rw out)
      | inl there ↦
          elim (Bool-cases (
            leb (length s.tombstone_entities) (entity_index entity)
            || not (get_or s.tombstone_entities (entity_index entity) 0 == entity.value))) [
              | inl other ↦ inl (rw (there, other))
              | inr own ↦ inr (rw (there, own))
            ]
    ]

    pub clear_tombstone_for_entity-SameEntries : SameEntries s (clear_tombstone_for_entity entity s)
    clear_tombstone_for_entity-SameEntries = elim for_entity_cases [
      | inl e ↦ rw e (SameEntries-refl s)
      | inr e ↦ rw e (clear_tombstone-SameEntries s (entity_index entity))
    ]

    -- The tombstone goes only where it was left for this very entity.
    pub tombstone-clear_tombstone_for_entity :
        (j : ℕ)
        → IsBuried s
        → tombstone_at (clear_tombstone_for_entity entity s) j ≡ (
            if j == entity_index entity
              && get_or s.tombstone_entities (entity_index entity) 0 == entity.value
            then no_tombstone
            else tombstone_at s j)
    unfolding clear_tombstone_for_entity
    tombstone-clear_tombstone_for_entity j w = ground (
      arith,
      has_tombstone_lem s (entity_index entity),
      tombstone-clear_tombstone s (entity_index entity) w j,
      get_or-past s.tombstone_entities (entity_index entity) 0,
      get_or-past s.tombstones (entity_index entity) no_tombstone,
      w.entities_length,
    )

    pub clear_tombstone_for_entity-IsBuried :
        IsBuried s → IsBuried (clear_tombstone_for_entity entity s)
    clear_tombstone_for_entity-IsBuried w = elim for_entity_cases [
      | inl e ↦ rw e w
      | inr e ↦ rw e (clear_tombstone-IsBuried s (entity_index entity) w)
    ]

    pub make_room-SameEntries : SameEntries s (make_room entity s)
    unfolding make_room
    make_room-SameEntries =
        SameEntries-trans (ensure_sparse-SameEntries s (entity_index entity))
          (ensure_capacity-SameEntries (ensure_sparse (entity_index entity) s) (s.size + 1))

    pub mark_tombstone-SameEntries : (flags : ℕ) → SameEntries s (mark_tombstone entity flags s)
    unfolding mark_tombstone put_tombstone widen_entities
    mark_tombstone-SameEntries flags = SameEntries-trans (ensure_sparse-SameEntries s i) (
        SameEntries-trans (widen_entities-SameEntries (ensure_sparse i s))
          (put_list-SameEntries (widen_entities (ensure_sparse i s)) i flags entity.value))
      where
        i : ℕ
        i = entity_index entity
