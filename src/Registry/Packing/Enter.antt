-- ===== src/Registry/Packing/Enter.antt =====
-- `enter_group` of src/groups.cpp keeps a group packed, and takes the index in.
use ashiato.Base.{
  ℕ, ◌+◌, ◌<◌, ◌≤◌, ◌≡◌, refl, sym, ◌∙◌, Bool, true, false, not, ◌&&◌, ◌==◌, ltb, arith, List, [],
  ◌∷◌, Bool-cases, inl, inr, ◌⊎◌, ltb→lt, ltb→le, ==_iff, elem, some, Option-cases, ok,
}
use mathlib.Core.Path.{subst}
use ashiato.Base.Maps.{find}
use ashiato.Storage.{Storage, npos}
use ashiato.Storage.Laws.Invariant.{IsValid}
use ashiato.Storage.Laws.Position.{position-at, position-inside}
use ashiato.Registry.{Registry, GroupRecord, component_entity, find_storage}
use ashiato.Registry.Groups.{
  holds_index, all_hold, in_front, in_front_of_first, group_contains_all, group_contains_index,
  enter_group,
}
use ashiato.Registry.Packing.{
  IsRegistered, has_component, position, size_of, IsPacked, AllHave, all_hold-each,
}
use ashiato.Registry.Packing.Moves.{Moved, CanMove, move_in_all_lem}
use ashiato.Registry.Packing.Shifts.{
  SameContents, Moved-SameContents, Moved-size, Moved-position, Moved-IsValid, Moved-fits,
  Moved-IsRegistered, Moved-all_hold, position_injective,
}

module _ {V : Type 0} where
  front-lem :
      (r : Registry V) (c i size : ℕ)
      → IsRegistered r c
      → ((s : Storage V) → find c r.storages ≡ some s → IsValid s)
      → size ≤ size_of (find c r.storages)
      → in_front (find_storage r (component_entity r c)) i size ≡ ltb (position r c i) size
  unfolding in_front find_storage
  front-lem r c i size reg valid le = elim (Option-cases (find c r.storages)) [
    | inl missing ↦
        let none_left : size ≤ 0 = rw missing at le in simp (reg.own_slot, missing) (ground arith)
    | inr (s, there) ↦
        let fits : size ≤ s.size = rw there at le in
        let small : s.size < npos = (valid s there).dense.small in
        simp (reg.own_slot, there) (ground arith)
  ]

  first-lem :
      (r : Registry V) (g : GroupRecord) (skip : ℕ → Bool) (owned : List ℕ) (c i : ℕ)
      → IsPacked r g skip
      → ((k : ℕ) → elem k owned ≡ true → elem k g.owned ≡ true)
      → elem c owned ≡ true
      → in_front_of_first r owned i g.size ≡ ltb (position r c i) g.size
  unfolding in_front_of_first
  first-lem r g skip [] c i p sub e = absurd (ground arith)
  first-lem r g skip (b ∷ rest) c i p sub e =
      let eb : elem b g.owned ≡ true = sub b (ground arith) in
      front-lem r b i g.size (p.registered b eb) (λ s. p.valid b s eb) (p.bound b eb)
      ∙ ground (arith, p.aligned b c i eb (sub c e), p.aligned c b i (sub c e) eb)

  -- Whether a group has an index shows in the storage of any owned component.
  pub group_contains_index_lem :
      (r : Registry V) (g : GroupRecord) (skip : ℕ → Bool) (c i : ℕ)
      → IsPacked r g skip
      → elem c g.owned ≡ true
      → group_contains_index r g i ≡ ltb (position r c i) g.size
  unfolding group_contains_index
  group_contains_index_lem r g skip c i p e = elim (Bool-cases (g.size == 0)) [
    | inl none_in ↦ simp none_in (ground arith)
    | inr some_in ↦ simp some_in (first-lem r g skip g.owned c i p (λ k m. m) e)
  ]

  -- A storage that has the index can move it.
  pub can_move :
      (r : Registry V) (g : GroupRecord) (skip : ℕ → Bool) (c i target : ℕ)
      → IsPacked r g skip
      → elem c g.owned ≡ true
      → has_component r c i ≡ true
      → target < size_of (find c r.storages)
      → CanMove r c i target
  unfolding holds_index
  can_move r g skip c i target p e has lt = elim (Option-cases (find c r.storages)) [
    | inl missing ↦ (let none_left : target < 0 = rw missing at lt in absurd (omega arith))
    | inr (s, there) ↦ record {
      registered = p.registered c e;
      storage = s;
      found = there;
      valid = p.valid c s e there;
      held = rw there at has;
      fits = rw there at lt;
    }
  ]

  -- An index that a component has stands below the size of its storage.
  pub position-has :
      (r : Registry V) (g : GroupRecord) (skip : ℕ → Bool) (c i : ℕ)
      → IsPacked r g skip
      → elem c g.owned ≡ true
      → has_component r c i ≡ true
      → position r c i < size_of (find c r.storages)
  unfolding holds_index
  position-has r g skip c i p e has = elim (Option-cases (find c r.storages)) [
    | inl missing ↦ (let no : false ≡ true = rw missing at has in cc)
    | inr (s, there) ↦ rw there (position-inside s i (p.valid c s e there).dense (rw there at has))
  ]

  -- And back.
  pub has-position :
      (r : Registry V) (g : GroupRecord) (skip : ℕ → Bool) (c i : ℕ)
      → IsPacked r g skip
      → elem c g.owned ≡ true
      → position r c i < size_of (find c r.storages)
      → has_component r c i ≡ true
  unfolding holds_index
  has-position r g skip c i p e lt = elim (Option-cases (find c r.storages)) [
    | inl missing ↦ (let none_left : npos < 0 = rw missing at lt in absurd (omega arith))
    | inr (s, there) ↦ rw there (position-at s i (p.valid c s e there).dense (rw there at lt)).0
  ]

  module _ (r r' : Registry V) (g : GroupRecord) (skip : ℕ → Bool) (i : ℕ) (p : IsPacked r g skip)
      (outside : (c : ℕ) → elem c g.owned ≡ true → g.size ≤ position r c i)
      (m : Moved r r' g.owned i g.size) where
    entered : GroupRecord
    entered = record { owned = g.owned; size = g.size + 1 }

    -- Indices in front stay, and the one at the end of the group makes room.
    entered-position :
        (c j : ℕ)
        → elem c g.owned ≡ true
        → position r' c j < g.size + 1
        → ((j ≡ i) × (position r' c j ≡ g.size))
          ⊎ ((position r c j < g.size) × (position r' c j ≡ position r c j))
    entered-position c j e lt = elim (Bool-cases (j == i)) [
      | inl same ↦
          inl ((==_iff j i).0 same, Moved-position r r' g.owned i g.size m c j e ∙ simp same refl)
      | inr other ↦ elim (Bool-cases (position r c j == g.size)) [
        | inl there ↦
            let now : position r' c j ≡ position r c i =
              Moved-position r r' g.owned i g.size m c j e ∙ simp (other, there) refl in
            let both : position r c j ≡ position r c i =
              omega (arith, (==_iff (position r c j) g.size).0 there, outside c e, now, lt) in
            let one : j ≡ i =
              position_injective r g skip c j i p e
                (omega (
                  arith,
                  (==_iff (position r c j) g.size).0 there,
                  Moved-fits r r' g.owned i g.size m c e,
                ))
                both in
            absurd (ground arith)
        | inr elsewhere ↦
            let now : position r' c j ≡ position r c j =
              Moved-position r r' g.owned i g.size m c j e ∙ simp (other, elsewhere) refl in
            inr (ground arith, now)
      ]
    ]

    entered-IsPacked : IsPacked r' entered (λ j. not (j == i) && skip j)
    unfolding entered
    entered-IsPacked = record {
      distinct = p.distinct;
      registered = λ c e. Moved-IsRegistered r r' g.owned i g.size m c (p.registered c e);
      valid = Moved-IsValid r r' g.owned i g.size m;
      bound = λ c e.
          omega
            (arith, Moved-size r r' g.owned i g.size m c, Moved-fits r r' g.owned i g.size m c e);
      aligned = λ c d j ec ed lt. elim (entered-position c j ec lt) [
        | inl (same, now) ↦ Moved-position r r' g.owned i g.size m d j ed ∙ ground (arith, now)
        | inr (front, now) ↦
            Moved-position r r' g.owned i g.size m d j ed
            ∙ ground (arith, p.aligned c d j ec ed front, outside d ed, now)
      ];
      full = λ c j e all new. elim (Bool-cases (j == i)) [
        | inl same ↦ ground (arith, Moved-position r r' g.owned i g.size m c j e)
        | inr other ↦
            let front : position r c j < g.size =
              p.full c j e (Moved-all_hold r r' g.owned i g.size m j p.registered all)
                (ground arith) in
            ground (arith, Moved-position r r' g.owned i g.size m c j e)
      ];
    }

  pub SameContents-refl : (r : Registry V) → SameContents r r
  SameContents-refl r = record {
    holds = λ c i. refl;
    reads = λ c i. refl;
    marks = λ c i. refl;
    same = refl;
  }

  -- Other exceptions from the invariant, where they are still exceptions or in the group.
  pub IsPacked-skip :
      (r : Registry V) (g : GroupRecord) (skip skip' : ℕ → Bool)
      → ((c i : ℕ)
          → elem c g.owned ≡ true
          → all_hold r g.owned i ≡ true
          → skip' i ≡ false
          → (skip i ≡ false) ⊎ (position r c i < g.size))
      → IsPacked r g skip
      → IsPacked r g skip'
  IsPacked-skip r g skip skip' h p = record {
    distinct = p.distinct;
    registered = p.registered;
    valid = p.valid;
    bound = p.bound;
    aligned = p.aligned;
    full = λ c i e all new. elim (h c i e all new) [
      | inl old ↦ p.full c i e all old
      | inr front ↦ front
    ];
  }

  -- An index that has all components of a packed group enters it, whether it is in the group or not:
  -- the group is packed afterwards, this index no longer an exception, and every component holds,
  -- reads and marks what it did before.
  pub enter_group_lem :
      (r : Registry V) (g : GroupRecord) (skip : ℕ → Bool) (i : ℕ)
      → IsPacked r g skip
      → group_contains_all r g i ≡ true
      → (g' : GroupRecord) × (r' : Registry V) × (enter_group r g i ≡ ok (g', r'))
        × (g'.owned ≡ g.owned)
        × IsPacked r' g' (λ j. not (j == i) && skip j)
        × SameContents r r'
  unfolding enter_group group_contains_all entered
  enter_group_lem r g skip i p all = elim (Bool-cases (group_contains_index r g i)) [
    | inl inside ↦ (
      g,
      r,
      simp inside refl,
      refl,
      IsPacked-skip r g skip (λ j. not (j == i) && skip j)
          (λ c j e held new. elim (Bool-cases (j == i)) [
            | inl same ↦ inr (
                subst (λ k. position r c k < g.size) (sym ((==_iff j i).0 same))
                  (ltb→lt _ _ (sym (group_contains_index_lem r g skip c i p e) ∙ inside)))
            | inr other ↦ inl (ground arith)
          ])
          p,
      SameContents-refl r,
    )
    | inr outside ↦
        let has : AllHave r g.owned i = all_hold-each r g.owned i p.registered all in
        let past : (c : ℕ) → elem c g.owned ≡ true → g.size ≤ position r c i =
          (λ c e. ltb→le _ _ (sym (group_contains_index_lem r g skip c i p e) ∙ outside)) in
        let (r', run, m) = move_in_all_lem g.owned r i g.size p.distinct (λ c e.
          can_move r g skip c i g.size p e (has c e)
            (omega (arith, past c e, position-has r g skip c i p e (has c e)))) in
        (
          record { owned = g.owned; size = g.size + 1 },
          r',
          simp (outside, run) refl,
          refl,
          entered-IsPacked r r' g skip i p past m,
          Moved-SameContents r r' g.owned i g.size m,
        )
  ]
