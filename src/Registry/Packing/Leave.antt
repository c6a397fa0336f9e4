-- ===== src/Registry/Packing/Leave.antt =====
-- `leave_group` of src/groups.cpp keeps a group packed, and puts the index behind its last one.
use ashiato.Base.{
  ℕ, ◌-◌, ◌<◌, ◌≤◌, ◌≡◌, refl, sym, ◌∙◌, Bool, true, false, ◌||◌, ◌==◌, arith, if◌then◌else◌,
  Bool-cases, inl, inr, ltb→lt, ltb→le, ==_iff, elem, ok,
}
use ashiato.Registry.{Registry, GroupRecord}
use ashiato.Registry.Groups.{group_contains_index, leave_group}
use ashiato.Registry.Packing.{position, IsPacked}
use ashiato.Registry.Packing.Moves.{Moved, move_in_all_lem}
use ashiato.Registry.Packing.Shifts.{
  SameContents, Moved-SameContents, Moved-size, Moved-position, Moved-IsValid, Moved-IsRegistered,
  Moved-all_hold, position_injective,
}
use ashiato.Registry.Packing.Enter.{
  group_contains_index_lem, can_move, has-position, SameContents-refl, IsPacked-skip,
}

module _ {V : Type 0} where
  module _ (r r' : Registry V) (g : GroupRecord) (skip : ℕ → Bool) (i : ℕ) (p : IsPacked r g skip)
      (inside : (c : ℕ) → elem c g.owned ≡ true → position r c i < g.size) (some_in : 0 < g.size)
      (m : Moved r r' g.owned i (g.size - 1)) where
    left : GroupRecord
    left = record { owned = g.owned; size = g.size - 1 }

    left-move :
        (c j : ℕ)
        → elem c g.owned ≡ true
        → position r' c j ≡ (
            if j == i
            then g.size - 1
            else if position r c j == g.size - 1
            then position r c i
            else position r c j)
    left-move c j e = Moved-position r r' g.owned i (g.size - 1) m c j e

    -- What stands in front afterwards stood in the group before, and is not the index that left.
    left-position :
        (c j : ℕ)
        → elem c g.owned ≡ true
        → position r' c j < g.size - 1
        → ((j == i) ≡ false) × (position r c j < g.size)
    left-position c j e lt = ground (arith, left-move c j e, inside c e)

    -- Another index of the group stands elsewhere.
    left-apart :
        (c j : ℕ)
        → elem c g.owned ≡ true
        → (j == i) ≡ false
        → position r c j < g.size
        → position r' c j < g.size - 1
    left-apart c j e other lt = elim (Bool-cases (position r c i == position r c j)) [
      | inl together ↦
          let one : i ≡ j =
            position_injective r g skip c i j p e (omega (arith, inside c e, p.bound c e))
              ((==_iff (position r c i) (position r c j)).0 together) in
          absurd (ground arith)
      | inr apart ↦ ground (arith, left-move c j e, inside c e)
    ]

    left-IsPacked : IsPacked r' left (λ j. j == i || skip j)
    unfolding left
    left-IsPacked = record {
      distinct = p.distinct;
      registered = λ c e. Moved-IsRegistered r r' g.owned i (g.size - 1) m c (p.registered c e);
      valid = Moved-IsValid r r' g.owned i (g.size - 1) m;
      bound = λ c e. omega (arith, Moved-size r r' g.owned i (g.size - 1) m c, p.bound c e);
      aligned = λ c d j ec ed lt.
          let (other, front) = left-position c j ec lt in
          ground (
            arith,
            left-move c j ec,
            left-move d j ed,
            p.aligned c d j ec ed front,
            p.aligned c d i ec ed (inside c ec),
          );
      full = λ c j e all new. left-apart c j e (ground arith) (
          p.full c j e (Moved-all_hold r r' g.owned i (g.size - 1) m j p.registered all)
            (ground arith));
    }

  not_empty :
      (r : Registry V) (g : GroupRecord) (i : ℕ) → group_contains_index r g i ≡ true → 0 < g.size
  unfolding group_contains_index
  not_empty r g i inside = ground arith

  -- An index leaves a packed group, whether it was in the group or not: the group is packed
  -- afterwards and does not contain the index, which is an exception from now on, and every component
  -- holds, reads and marks what it did before.
  pub leave_group_lem :
      (r : Registry V) (g : GroupRecord) (skip : ℕ → Bool) (i : ℕ)
      → IsPacked r g skip
      → (g' : GroupRecord) × (r' : Registry V) × (leave_group r g i ≡ ok (g', r'))
        × (g'.owned ≡ g.owned)
        × IsPacked r' g' (λ j. j == i || skip j)
        × ((c : ℕ) → elem c g.owned ≡ true → g'.size ≤ position r' c i)
        × SameContents r r'
  unfolding leave_group left
  leave_group_lem r g skip i p = elim (Bool-cases (group_contains_index r g i)) [
    | inl inside ↦
        let front : (c : ℕ) → elem c g.owned ≡ true → position r c i < g.size =
          (λ c e. ltb→lt _ _ (sym (group_contains_index_lem r g skip c i p e) ∙ inside)) in
        let some_in : 0 < g.size = not_empty r g i inside in
        let (r', run, m) = move_in_all_lem g.owned r i (g.size - 1) p.distinct (λ c e.
          can_move r g skip c i (g.size - 1) p e
            (has-position r g skip c i p e (omega (arith, front c e, p.bound c e)))
            (omega (arith, p.bound c e))) in
        (
          record { owned = g.owned; size = g.size - 1 },
          r',
          simp (inside, run) refl,
          refl,
          left-IsPacked r r' g skip i p front some_in m,
          λ c e. ground (arith, left-move r r' g skip i p front some_in m c i e),
          Moved-SameContents r r' g.owned i (g.size - 1) m,
        )
    | inr outside ↦ (
      g,
      r,
      simp outside refl,
      refl,
      IsPacked-skip r g skip (λ j. j == i || skip j) (λ c j e held new. inl (ground arith)) p,
      λ c e. ltb→le _ _ (sym (group_contains_index_lem r g skip c i p e) ∙ outside),
      SameContents-refl r,
    )
  ]
