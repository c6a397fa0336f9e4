-- ===== src/Registry/Packing/Shifts.antt =====
-- What the moves of a group (src/groups.cpp) come to for positions, and what a caller sees of them.
use ashiato.Base.{
  ℕ, ◌<◌, ◌≡◌, refl, sym, ap, ◌∙◌, Bool, true, false, ◌==◌, arith, if◌then◌else◌, List, Bool-cases,
  inl, inr, elem, Option, some, none, Option-cases,
}
use mathlib.Core.Path.{subst}
use ashiato.Base.Maps.{find}
use ashiato.Storage.{Storage, npos, dense_index_at, dense_position}
use ashiato.Storage.Access.{get, is_dirty}
use ashiato.Storage.Laws.Invariant.{IsValid}
use ashiato.Storage.Laws.Position.{position-at, position-moved}
use ashiato.Registry.{Registry, GroupRecord}
use ashiato.Registry.Groups.{holds_index, all_hold}
use ashiato.Registry.Packing.{
  IsRegistered, IsRegistered-storages, has_component, position, size_of, IsPacked, all_hold-each,
  each-all_hold,
}
use ashiato.Registry.Packing.Moves.{Moved, Shifted}

module _ {V : Type 0} where
  abbrev pub value_in : Option (Storage V) → ℕ → Option V
  value_in none i = none
  value_in (some s) i = get s i

  abbrev pub dirty_in : Option (Storage V) → ℕ → Bool
  dirty_in none i = false
  dirty_in (some s) i = is_dirty s i

  -- Every component has the indices, the values and the dirty marks that it had.
  pub record SameContents (r r' : Registry V) : Type 0 where
    pub holds : (c i : ℕ) → has_component r' c i ≡ has_component r c i
    pub reads : (c i : ℕ) → value_in (find c r'.storages) i ≡ value_in (find c r.storages) i
    pub marks : (c i : ℕ) → dirty_in (find c r'.storages) i ≡ dirty_in (find c r.storages) i
    pub same : r' ≡ record r { storages = r'.storages }

  module _ (r r' : Registry V) (cs : List ℕ) (i target : ℕ) (m : Moved r r' cs i target) where
    pub Moved-SameContents : SameContents r r'
    unfolding holds_index
    Moved-SameContents = record {
      holds = λ c j. elim (Bool-cases (elem c cs)) [
        | inl inside ↦
            let k : Shifted r r' c i target = m.each c inside in rw (k.was, k.is) (k.moved.holds j)
        | inr outside ↦ rw (m.others c outside) refl
      ];
      reads = λ c j. elim (Bool-cases (elem c cs)) [
        | inl inside ↦
            let k : Shifted r r' c i target = m.each c inside in rw (k.was, k.is) (k.moved.reads j)
        | inr outside ↦ rw (m.others c outside) refl
      ];
      marks = λ c j. elim (Bool-cases (elem c cs)) [
        | inl inside ↦
            let k : Shifted r r' c i target = m.each c inside in rw (k.was, k.is) (k.moved.marks j)
        | inr outside ↦ rw (m.others c outside) refl
      ];
      same = m.same;
    }

    pub Moved-size : (c : ℕ) → size_of (find c r'.storages) ≡ size_of (find c r.storages)
    Moved-size c = elim (Bool-cases (elem c cs)) [
      | inl inside ↦
          let k : Shifted r r' c i target = m.each c inside in rw (k.was, k.is) k.moved.same_size
      | inr outside ↦ rw (m.others c outside) refl
    ]

    pub Moved-position :
        (c j : ℕ)
        → elem c cs ≡ true
        → position r' c j ≡ (
            if j == i
            then target
            else if position r c j == target
            then position r c i
            else position r c j)
    Moved-position c j inside =
        let k : Shifted r r' c i target = m.each c inside in
        rw (k.was, k.is)
          (position-moved k.before k.after i target j k.valid.dense k.held k.fits k.moved)

    pub Moved-IsValid :
        (c : ℕ) (s : Storage V) → elem c cs ≡ true → find c r'.storages ≡ some s → IsValid s
    Moved-IsValid c s inside e =
        let k : Shifted r r' c i target = m.each c inside in
        subst (λ x. IsValid x) (cc (k.is, e)) k.moved.valid

    pub Moved-fits : (c : ℕ) → elem c cs ≡ true → target < size_of (find c r.storages)
    Moved-fits c inside = let k : Shifted r r' c i target = m.each c inside in rw k.was k.fits

    pub Moved-IsRegistered : (c : ℕ) → IsRegistered r c → IsRegistered r' c
    Moved-IsRegistered c h =
        subst (λ x. IsRegistered x c) (sym m.same) (IsRegistered-storages r r'.storages c h)

    pub Moved-all_hold :
        (j : ℕ)
        → ((c : ℕ) → elem c cs ≡ true → IsRegistered r c)
        → all_hold r' cs j ≡ true
        → all_hold r cs j ≡ true
    Moved-all_hold j reg h = each-all_hold r cs j reg λ c e.
        sym (Moved-SameContents.holds c j)
        ∙ all_hold-each r' cs j (λ k m'. Moved-IsRegistered k (reg k m')) h c e

  -- Two indices at one position of a storage are one index.
  pub position_injective :
      (r : Registry V) (g : GroupRecord) (skip : ℕ → Bool) (c i j : ℕ)
      → IsPacked r g skip
      → elem c g.owned ≡ true
      → position r c i < size_of (find c r.storages)
      → position r c i ≡ position r c j
      → i ≡ j
  position_injective r g skip c i j p e lt same = elim (Option-cases (find c r.storages)) [
    | inl missing ↦ (let none_left : npos < 0 = rw missing at lt in absurd (omega arith))
    | inr (s, there) ↦
        let w : IsValid s = p.valid c s e there in
        let lt' : dense_position s i < s.size = rw there at lt in
        let same' : dense_position s i ≡ dense_position s j = rw (there) at same in
        sym (position-at s i w.dense lt').1
        ∙ ap (dense_index_at s) same'
        ∙ (position-at s j w.dense (omega (arith, same', lt'))).1
  ]
