-- ===== src/Registry/Packing.antt =====
-- The invariant of the groups of src/groups.cpp: in the storages of the owned components the indices
-- that have all of them stand in front, at the same positions.
pub mod Moves
pub mod Shifts
pub mod Enter
pub mod Leave
use ashiato.Base.{
  ℕ, ◌+◌, ◌<◌, ◌≤◌, ◌≡◌, ◌≢◌, refl, sym, ap, ◌∙◌, Bool, true, false, not, ◌&&◌, ◌||◌, ◌==◌, ltb,
  arith, if◌then◌else◌, List, [], ◌∷◌, Bool-cases, inl, inr, ==_iff, elem, Option, some, none,
  Option-cases, Result, ok, err, length,
}
use ashiato.Base.Maps.{find, assign}
use ashiato.EntityStore.{Entity, entity_index}
use ashiato.EntityStore.Invariant.{Distinct}
use ashiato.Storage.{Storage, npos, contains, dense_position}
use ashiato.Storage.Laws.Invariant.{IsValid}
use ashiato.Storage.Laws.Position.{position-at, position-inside, position-missing}
use ashiato.Registry.{
  Registry, GroupRecord, ComponentRecord, component_entity, find_storage, require_component_record,
  find_component_record,
}
use ashiato.Registry.Groups.{owned_storage, owned_key, holds_index, all_hold, group_contains_all}

module _ {V : Type 0} where
  -- The component's slot holds its index, and its record is there.
  pub record IsRegistered (r : Registry V) (component : ℕ) : Type 0 where
    pub own_slot : owned_key r component ≡ component
    pub known :
        (found : ComponentRecord) × (require_component_record r (component_entity r component)
          ≡ ok found)

  -- The storages play no part in it.
  pub IsRegistered-storages :
      (r : Registry V) (storages : List (ℕ × Storage V)) (c : ℕ)
      → IsRegistered r c
      → IsRegistered (record r { storages = storages }) c
  unfolding require_component_record find_component_record
  IsRegistered-storages r storages c h = record { own_slot = h.own_slot; known = h.known }

  -- What a component's storage says of an index; without a storage no index has the component.
  abbrev pub has_component : Registry V → ℕ → ℕ → Bool
  has_component r component index = holds_index (find component r.storages) index

  abbrev pub position_in : Option (Storage V) → ℕ → ℕ
  position_in none index = npos
  position_in (some storage) index = dense_position storage index

  abbrev pub position : Registry V → ℕ → ℕ → ℕ
  position r component index = position_in (find component r.storages) index

  abbrev pub size_of : Option (Storage V) → ℕ
  size_of none = 0
  size_of (some storage) = storage.size

  -- `skip` says which indices may have all components and be missing from the group.
  pub record IsPacked (r : Registry V) (g : GroupRecord) (skip : ℕ → Bool) : Type 0 where
    pub distinct : Distinct g.owned
    pub registered : (c : ℕ) → elem c g.owned ≡ true → IsRegistered r c
    pub valid :
        (c : ℕ) (s : Storage V) → elem c g.owned ≡ true → find c r.storages ≡ some s → IsValid s
    pub bound : (c : ℕ) → elem c g.owned ≡ true → g.size ≤ size_of (find c r.storages)
    pub aligned :
        (c d i : ℕ)
        → elem c g.owned ≡ true
        → elem d g.owned ≡ true
        → position r c i < g.size
        → position r d i ≡ position r c i
    pub full :
        (c i : ℕ)
        → elem c g.owned ≡ true
        → all_hold r g.owned i ≡ true
        → skip i ≡ false
        → position r c i < g.size

  -- Does every component of the list have the index? By its storage at its own key.
  abbrev pub AllHave : Registry V → List ℕ → ℕ → Type 0
  AllHave r cs i = (c : ℕ) → elem c cs ≡ true → has_component r c i ≡ true

  all_hold-cons :
      (r : Registry V) (c : ℕ) (cs : List ℕ) (i : ℕ)
      → IsRegistered r c
      → all_hold r (c ∷ cs) i ≡ (has_component r c i && all_hold r cs i)
  unfolding all_hold find_storage
  all_hold-cons r c cs i h = rw h.own_slot refl

  pub all_hold-each :
      (r : Registry V) (cs : List ℕ) (i : ℕ)
      → ((c : ℕ) → elem c cs ≡ true → IsRegistered r c)
      → all_hold r cs i ≡ true
      → AllHave r cs i
  all_hold-each r [] i reg h c e = absurd (ground arith)
  all_hold-each r (d ∷ cs) i reg h c e =
      let step = all_hold-cons r d cs i (reg d (ground arith)) in
      elim (Bool-cases (c == d)) [
        | inl same ↦ rw ((==_iff c d).0 same) (ground arith)
        | inr other ↦
            all_hold-each r cs i (λ k m. reg k (ground arith)) (ground arith) c (ground arith)
      ]

  pub each-all_hold :
      (r : Registry V) (cs : List ℕ) (i : ℕ)
      → ((c : ℕ) → elem c cs ≡ true → IsRegistered r c)
      → AllHave r cs i
      → all_hold r cs i ≡ true
  each-all_hold r [] i reg h = unfold all_hold in refl
  each-all_hold r (d ∷ cs) i reg h = ground (
    arith,
    all_hold-cons r d cs i (reg d (ground arith)),
    h d (ground arith),
    each-all_hold r cs i (λ k m. reg k (ground arith)) (λ c m. h c (ground arith)),
  )
