-- ===== src/Storage/Laws/Put.antt =====
-- What adding or replacing a component comes to for a caller: which indices are contained, what
-- `get` and `is_dirty` return, and that the storage stays well formed.
use ashiato.Base.{
  ℕ, ◌+◌, ◌<◌, ◌≡◌, refl, ◌∙◌, ap, Bool, true, false, not, ◌&&◌, ◌||◌, ◌==◌, arith, if◌then◌else◌,
  get_or, set, push_back, length-set, length-push_back, Option, some, none, Bool-cases, inl, inr,
  ok,
}
use mathlib.Core.Path.{subst}
use ashiato.Base.Reads.{get_elem?-set, get_elem?-push_back}
use ashiato.EntityStore.{Entity, entity_index}
use ashiato.Storage.{Storage, npos, no_tombstone, sparse_at, dense_index_at, contains}
use ashiato.Storage.Flags.{mark_dirty_dense}
use ashiato.Storage.Tombstones.{tombstone_at, has_tombstone}
use ashiato.Storage.Insert.{
  insert_value, replace_value, make_room, commit_insert_metadata, emplace_or_replace,
  emplace_or_replace_tag,
}
use ashiato.Storage.Access.{get, is_dirty}
use ashiato.Storage.Laws.Invariant.{
  IsDense, IsValid, contains_lem, contains-at, has_tombstone_lem, IsFlagged-congr, IsBuried-congr,
}
use ashiato.Storage.Laws.Marks.{
  mark_dirty_dense-IsFlagged, mark_dirty_dense-IsDense, mark_dirty_dense-IsBuried,
  dirty-mark_dirty_dense,
}
use ashiato.Storage.Laws.Insert.{
  Entered, Entered-IsDense, Entered-IsFlagged, Entered-contains, Entered-dirty, Entered-value,
  Entered-tag, values-insert_value, tombstone-insert_value, insert_value-IsBuried, inserted_tag,
  inserted_tag-IsBuried, tombstone-inserted,
}

module _ {V : Type 0} where
  -- `s'` is `s` with a component at `i`, new or written anew, and marked dirty. `value` is what
  -- `get` returns there: nothing for a tag.
  pub record Put (s s' : Storage V) (i : ℕ) (value : Option V) : Type 0 where
    pub valid : IsValid s'
    pub holds : (j : ℕ) → contains s' j ≡ (j == i || contains s j)
    pub reads : (j : ℕ) → get s' j ≡ (if j == i then value else get s j)
    pub marks : (j : ℕ) → is_dirty s' j ≡ (j == i || is_dirty s j)
    pub same_info : s'.info ≡ s.info

  -- `is_dirty` in terms of the parts.
  pub is_dirty_lem :
      (s : Storage V) (j : ℕ)
      → is_dirty s j ≡ (
          if contains s j
          then not (get_or s.dirty (sparse_at s j) 0 == 0)
          else not (tombstone_at s j == no_tombstone))
  unfolding is_dirty
  is_dirty_lem s j = ground (arith, has_tombstone_lem s j)

  module _ (s t : Storage V) (i : ℕ) (e : Entered s t i) where
    Entered-marks :
        (w : IsValid s)
        → contains s i ≡ false
        → IsDense t
        → (j : ℕ) (own : Bool)
        → tombstone_at t j ≡ (if j == i && own then no_tombstone else tombstone_at s j)
        → is_dirty t j ≡ (j == i || is_dirty s j)
    Entered-marks w new wt j own h = ground (
      arith,
      is_dirty_lem t j,
      is_dirty_lem s j,
      Entered-contains s t i e w.dense new j wt,
      Entered-dirty s t i e w.dense new j w.flagged,
    )

    Entered-get :
        (w : IsDense s)
        → contains s i ≡ false
        → (v : V) → s.info.tag ≡ false
        → t.values ≡ push_back s.values v
        → IsDense t
        → (j : ℕ) → get t j ≡ (if j == i then some v else get s j)
    unfolding get
    Entered-get w new v plain vs wt j = ground (
      arith,
      Entered-contains s t i e w new j wt,
      e.sparse_reads j,
      e.same_info,
      get_elem?-push_back s.values v (sparse_at t j),
      w.value_length,
      contains_lem s j w,
    )

  module _ (s : Storage V) (entity : Entity) (w : IsValid s) (room : s.size + 1 < npos) where
    module _ (new : contains s (entity_index entity) ≡ false) where
      insert_value-IsDense : (v : V) → IsDense (insert_value entity v s)
      insert_value-IsDense v =
          Entered-IsDense s (insert_value entity v s) (entity_index entity) e w.dense new room λ h.
            rw (values-insert_value s entity v, e.grown)
              (omega
                (arith, length-push_back s.values v, w.dense.value_length (rw (← e.same_info) h)))
        where
          e : Entered s (insert_value entity v s) (entity_index entity)
          e = Entered-value s entity v

      insert_value-Put :
          (v : V)
          → s.info.tag ≡ false
          → Put s (insert_value entity v s) (entity_index entity) (some v)
      insert_value-Put v plain = record {
        valid = record {
          dense = insert_value-IsDense v;
          flagged = Entered-IsFlagged s t i e w.flagged;
          tombs = insert_value-IsBuried s entity v w.tombs;
          ordinary = e.same_lookup ∙ w.ordinary;
        };
        holds = λ j. Entered-contains s t i e w.dense new j (insert_value-IsDense v);
        reads = λ j.
            Entered-get s t i e w.dense new v plain (values-insert_value s entity v)
              (insert_value-IsDense v) j;
        marks = λ j.
            Entered-marks s t i e w new (insert_value-IsDense v) j
              (get_or s.tombstone_entities i 0 == entity.value)
              (tombstone-insert_value s entity v j w.tombs);
        same_info = e.same_info;
      }
        where
          t : Storage V
          t = insert_value entity v s

          i : ℕ
          i = entity_index entity

          e : Entered s t i
          e = Entered-value s entity v

      inserted_tag-IsDense : s.info.tag ≡ true → IsDense (inserted_tag s entity)
      inserted_tag-IsDense tagged =
          Entered-IsDense s (inserted_tag s entity) (entity_index entity) (Entered-tag s entity)
            w.dense new room λ h. absurd (ground (arith, (Entered-tag s entity).same_info))

      inserted_tag-Put :
          s.info.tag ≡ true → Put s (inserted_tag s entity) (entity_index entity) none
      unfolding get
      inserted_tag-Put tagged = record {
        valid = record {
          dense = inserted_tag-IsDense tagged;
          flagged = Entered-IsFlagged s t i e w.flagged;
          tombs = inserted_tag-IsBuried s entity w.tombs;
          ordinary = e.same_lookup ∙ w.ordinary;
        };
        holds = λ j. Entered-contains s t i e w.dense new j (inserted_tag-IsDense tagged);
        reads = λ j. ground (arith, e.same_info);
        marks = λ j.
            Entered-marks s t i e w new (inserted_tag-IsDense tagged) j
              (get_or s.tombstone_entities i 0 == entity.value)
              (tombstone-inserted s entity j w.tombs);
        same_info = e.same_info;
      }
        where
          t : Storage V
          t = inserted_tag s entity

          i : ℕ
          i = entity_index entity

          e : Entered s t i
          e = Entered-tag s entity

  -- `mark_dirty_dense` changes no field but two.
  marked_fields :
      (s : Storage V) (d : ℕ)
      → (sparse_at (mark_dirty_dense d s) ≡ sparse_at s)
        × ((mark_dirty_dense d s).tombstones ≡ s.tombstones)
        × ((mark_dirty_dense d s).info ≡ s.info)
        × ((mark_dirty_dense d s).compact_lookup ≡ s.compact_lookup)
        × (contains (mark_dirty_dense d s) ≡ contains s)
        × (get (mark_dirty_dense d s) ≡ get s)
  unfolding mark_dirty_dense
  marked_fields s d = elim (Bool-cases (get_or s.dirty d 0 == 0)) [
    | inr marked ↦ rw marked (refl, refl, refl, refl, refl, refl)
    | inl clean ↦
        rw clean (refl, refl, refl, refl, (unfold contains in refl), (unfold contains get in refl))
  ]

  -- A component that is there: its value is replaced, if it has one, and it is marked dirty.
  module _ (s : Storage V) (i : ℕ) (w : IsValid s) (there : contains s i ≡ true) where
    inside : (sparse_at s i < s.size) × (dense_index_at s (sparse_at s i) ≡ i)
    inside = contains-at s i w.dense there

    -- Marking an entry that is there makes it dirty, and changes nothing else that can be seen.
    pub mark-Put : Put s (mark_dirty_dense (sparse_at s i) s) i (get s i)
    mark-Put = record {
      valid = record {
        dense = mark_dirty_dense-IsDense s d w.dense;
        flagged = mark_dirty_dense-IsFlagged s d w.flagged inside.0;
        tombs = mark_dirty_dense-IsBuried s d w.tombs;
        ordinary = (marked_fields s d).3 ∙ w.ordinary;
      };
      holds = λ j. rw (marked_fields s d).4 (ground arith);
      reads = λ j. rw (marked_fields s d).5 (ground arith);
      marks = λ j. ground (
        arith,
        is_dirty_lem (mark_dirty_dense d s) j,
        is_dirty_lem s j,
        ap (λ f. f j) (marked_fields s d).0,
        ap (λ f. f j) (marked_fields s d).4,
        (marked_fields s d).1,
        dirty-mark_dirty_dense s d w.flagged inside.0 (sparse_at s j),
        contains_lem s j w.dense,
        inside,
      );
      same_info = (marked_fields s d).2;
    }
      where
        d : ℕ
        d = sparse_at s i

    -- The storage with the value at `i` written, before it is marked.
    written : V → Storage V
    written v = record s { values = set s.values (sparse_at s i) v }

    written-IsValid : (v : V) → IsValid (written v)
    unfolding written
    written-IsValid v = record {
      dense = record {
        dense_length = w.dense.dense_length;
        dense_inside = w.dense.dense_inside;
        inverse = w.dense.inverse;
        small = w.dense.small;
        value_length = λ h. length-set s.values (sparse_at s i) v ∙ w.dense.value_length h;
      };
      flagged = IsFlagged-congr s (written v) refl refl refl refl refl w.flagged;
      tombs = IsBuried-congr s (written v) refl refl refl refl refl w.tombs;
      ordinary = w.ordinary;
    }

    contains-written : (v : V) (j : ℕ) → contains (written v) j ≡ contains s j
    unfolding written contains
    contains-written v j = refl

    is_dirty-written : (v : V) (j : ℕ) → is_dirty (written v) j ≡ is_dirty s j
    unfolding written contains is_dirty has_tombstone
    is_dirty-written v j = refl

    get-written :
        (v : V) (j : ℕ)
        → s.info.tag ≡ false
        → get (written v) j ≡ (if j == i then some v else get s j)
    unfolding get written
    get-written v j plain = ground (
      arith,
      contains-written v j,
      get_elem?-set s.values (sparse_at s i) (sparse_at s j) v,
      w.dense.value_length,
      contains_lem s j w.dense,
      inside,
    )

  replace_value-Put :
      (s : Storage V) (entity : Entity) (v : V)
      → IsValid s
      → contains s (entity_index entity) ≡ true
      → s.info.tag ≡ false
      → Put s (replace_value entity v s) (entity_index entity) (some v)
  unfolding replace_value written
  replace_value-Put s entity v w there plain = record {
    valid = p.valid;
    holds = λ j. rw (p.holds j, contains-written s i w there v j);
    reads = λ j.
        ground
          (arith, p.reads j, get-written s i w there v j plain, get-written s i w there v i plain);
    marks = λ j. rw (p.marks j, is_dirty-written s i w there v j);
    same_info = p.same_info;
  }
    where
      i : ℕ
      i = entity_index entity

      p : Put (written s i w there v) (replace_value entity v s) i (get (written s i w there v) i)
      p =
          mark-Put (written s i w there v) i (written-IsValid s i w there v)
            (contains-written s i w there v i ∙ there)

  -- On a well-formed storage of a component with values, with room for one more dense entry,
  -- `emplace_or_replace` returns a well-formed storage that contains the index of the entity and
  -- those that it contained before, reads the given value there and the old values elsewhere, and
  -- is dirty there and where it was before.
  pub emplace_or_replace_lem :
      (s : Storage V) (entity : Entity) (v : V)
      → IsValid s
      → s.info.tag ≡ false
      → s.size + 1 < npos
      → (s' : Storage V) × (emplace_or_replace true entity v s ≡ ok s')
        × Put s s' (entity_index entity) (some v)
  unfolding emplace_or_replace
  emplace_or_replace_lem s entity v w plain room =
      elim (Bool-cases (contains s (entity_index entity))) [
        | inl there ↦ (
          replace_value entity v s,
          simp (plain, there),
          replace_value-Put s entity v w there plain,
        )
        | inr new ↦ (
          insert_value entity v s,
          simp (plain, new),
          insert_value-Put s entity w room new v plain,
        )
      ]

  get_tag : (s : Storage V) (i : ℕ) → s.info.tag ≡ true → get s i ≡ none
  unfolding get
  get_tag s i h = ground arith

  -- On a well-formed storage of a tag `emplace_or_replace_tag` returns a well-formed storage that
  -- contains the index of the entity beside the others, and is dirty there and where it was before.
  pub emplace_or_replace_tag_lem :
      (s : Storage V) (entity : Entity)
      → IsValid s
      → s.info.tag ≡ true
      → s.size + 1 < npos
      → (s' : Storage V) × (emplace_or_replace_tag entity s ≡ ok s')
        × Put s s' (entity_index entity) none
  unfolding emplace_or_replace_tag inserted_tag
  emplace_or_replace_tag_lem s entity w tagged room =
      elim (Bool-cases (contains s (entity_index entity))) [
        | inl there ↦ (
          mark_dirty_dense (sparse_at s (entity_index entity)) s,
          simp (tagged, there),
          subst
              (Put s (mark_dirty_dense (sparse_at s (entity_index entity)) s) (entity_index entity))
              (get_tag s (entity_index entity) tagged) (mark-Put s (entity_index entity) w there),
        )
        | inr new ↦ (
          commit_insert_metadata entity (make_room entity s),
          simp (tagged, new),
          inserted_tag-Put s entity w room new tagged,
        )
      ]
