-- ===== src/Registry/Groups.antt =====
-- src/groups.cpp: groups of components that are owned together. Their storages keep the indices that
-- have all the components in front, in the same order.
use ashiato.Base.{
  ℕ, zero, suc, ◌+◌, ◌-◌, Bool, true, false, not, ◌&&◌, ◌==◌, ltb, if◌then◌else◌, List, [], ◌∷◌,
  Option, some, none, length, elem, push_back, Result, ok, logic_error, throw_if, ◌>>◌, ◌>>=◌,
}
use ashiato.Base.Maps.{find, assign, same_elements}
use ashiato.EntityStore.{entity_index}
use ashiato.Storage.{Storage, npos, contains, dense_size, dense_index_at, dense_position}
use ashiato.Storage.Swap.{move_index_to_dense}
use ashiato.Registry.{
  Registry, GroupRecord, component_entity, find_storage, storage_for, put_storage,
  bump_view_topology_token,
}

-- `std::binary_search`, on a sorted vector
unfoldable pub group_contains_component : GroupRecord → ℕ → Bool
group_contains_component group component = elem component group.owned

unfoldable pub register_group_ownership : ℕ → List ℕ → List (ℕ × ℕ) → List (ℕ × ℕ)
register_group_ownership address [] owners = owners
register_group_ownership address (component ∷ rest) owners =
    register_group_ownership address rest (assign component address owners)

unfoldable pub ownership_of : List (ℕ × GroupRecord) → List (ℕ × ℕ) → List (ℕ × ℕ)
ownership_of [] owners = owners
ownership_of ((address, group) ∷ rest) owners =
    ownership_of rest (register_group_ownership address group.owned owners)

-- The address of the first group with this key.
unfoldable pub group_with_key : List ℕ → List (ℕ × GroupRecord) → Option ℕ
group_with_key key [] = none
group_with_key key ((address, group) ∷ rest) =
    if same_elements group.owned key then some address else group_with_key key rest

module _ {V : Type 0} where
  -- `owned_storage_of`: the storage that a group's function looks up for an owned component.
  abbrev pub owned_storage : Registry V → ℕ → Option (Storage V)
  owned_storage r component = find_storage r (component_entity r component)

  -- The key of the storage that `find_storage` looks up for an owned component.
  abbrev pub owned_key : Registry V → ℕ → ℕ
  owned_key r component = entity_index (component_entity r component)

  -- The loop of `smallest_storage`, with the best storage so far. A storage is given by its key and
  -- by what it holds.
  unfoldable pub smallest_from :
      Registry V → List ℕ → Option (ℕ × Storage V) → Option (ℕ × Storage V)
  smallest_from r [] driver = driver
  smallest_from r (component ∷ rest) driver = elim (owned_storage r component) [
    | none ↦ none
    | some storage ↦ elim driver [
      | none ↦ smallest_from r rest (some (owned_key r component, storage))
      | some best ↦ smallest_from r rest (
          if ltb (dense_size storage) (dense_size best.1)
          then some (owned_key r component, storage)
          else some best)
    ]
  ]

  unfoldable pub smallest_storage : Registry V → GroupRecord → Option (ℕ × Storage V)
  smallest_storage r group = smallest_from r group.owned none

  unfoldable pub holds_index : Option (Storage V) → ℕ → Bool
  holds_index none index = false
  holds_index (some storage) index = contains storage index

  unfoldable pub all_hold : Registry V → List ℕ → ℕ → Bool
  all_hold r [] index = true
  all_hold r (component ∷ rest) index =
      holds_index (owned_storage r component) index && all_hold r rest index

  unfoldable pub group_contains_all : Registry V → GroupRecord → ℕ → Bool
  group_contains_all r group index = all_hold r group.owned index

  -- The test on the storage of the first owned component.
  unfoldable pub in_front : Option (Storage V) → ℕ → ℕ → Bool
  in_front none index size = false
  in_front (some storage) index size =
      not (dense_position storage index == npos) && ltb (dense_position storage index) size

  unfoldable pub in_front_of_first : Registry V → List ℕ → ℕ → ℕ → Bool
  in_front_of_first r [] index size = false
  in_front_of_first r (component ∷ rest) index size =
      in_front (owned_storage r component) index size

  unfoldable pub group_contains_index : Registry V → GroupRecord → ℕ → Bool
  group_contains_index r group index =
      if group.size == 0 then false else in_front_of_first r group.owned index group.size

  -- `storage_for(Entity{entity_store_.slots[component]}).move_index_to_dense(index, target)`
  unfoldable pub move_in : Registry V → ℕ → ℕ → ℕ → Result (Registry V)
  move_in r component index target = do
    found ← storage_for r (component_entity r component)
    moved ← move_index_to_dense index target found.0
    ok (put_storage found.1 (entity_index (component_entity r component)) moved)

  -- The same for each owned component.
  unfoldable pub move_in_all : List ℕ → ℕ → ℕ → Registry V → Result (Registry V)
  move_in_all [] index target r = ok r
  move_in_all (component ∷ rest) index target r =
      move_in r component index target >>= λ moved. move_in_all rest index target moved

  unfoldable pub enter_group : Registry V → GroupRecord → ℕ → Result (GroupRecord × Registry V)
  enter_group r group index =
      if group_contains_index r group index
      then ok (group, r)
      else (move_in_all group.owned index group.size r >>= λ moved.
          ok (record { owned = group.owned; size = group.size + 1 }, moved))

  unfoldable pub leave_group : Registry V → GroupRecord → ℕ → Result (GroupRecord × Registry V)
  leave_group r group index =
      if not (group_contains_index r group index)
      then ok (group, r)
      else (move_in_all group.owned index (group.size - 1) r >>= λ moved.
          ok (record { owned = group.owned; size = group.size - 1 }, moved))

  -- The rounds of the loop of `build_group`, from this dense position on. The driver is a pointer,
  -- so each round reads its storage as the rounds before have left it.
  unfoldable pub build_from :
      ℕ → ℕ → ℕ → GroupRecord → Registry V → Result (GroupRecord × Registry V)
  build_from zero dense driver group r = ok (group, r)
  build_from (suc rounds) dense driver group r = elim (find driver r.storages) [
    | none ↦ ok (group, r)
    | some storage ↦
        (if group_contains_all r group (dense_index_at storage dense)
          then enter_group r group (dense_index_at storage dense)
          else ok (group, r))
        >>= λ entered. build_from rounds (dense + 1) driver entered.0 entered.1
  ]

  unfoldable pub build_group : Registry V → GroupRecord → Result (GroupRecord × Registry V)
  build_group r group =
      let cleared : GroupRecord = record { owned = group.owned; size = 0 } in
      elim (smallest_storage r cleared) [
        | none ↦ ok (cleared, r)
        | some driver ↦ build_from (dense_size driver.1) 0 driver.0 cleared r
      ]

  -- `*group = group`, for the group at this address
  abbrev pub put_group : Registry V → ℕ → GroupRecord → Registry V
  put_group r address group = record r { groups = assign address group r.groups }

  -- Has the component an owner with another key?
  unfoldable pub owned_by_other : Registry V → List ℕ → ℕ → Bool
  owned_by_other r key component = elim (find component r.owned_component_groups) [
    | none ↦ false
    | some address ↦ elim (find address r.groups) [
      | none ↦ false
      | some group ↦ not (same_elements group.owned key)
    ]
  ]

  -- `validate_group_key`, for the components of this list.
  unfoldable pub validate_from : Registry V → List ℕ → List ℕ → Result (Unit {0})
  validate_from r key [] = ok tt
  validate_from r key (component ∷ rest) =
      throw_if (owned_by_other r key component) logic_error >> validate_from r key rest

  unfoldable pub validate_group_key : Registry V → List ℕ → Result (Unit {0})
  validate_group_key r key = validate_from r key key

  abbrev pub rebuild_group_ownership : Registry V → Registry V
  rebuild_group_ownership r = record r { owned_component_groups = ownership_of r.groups [] }

  -- A new group stands at the end of the vector from before it is built.
  unfoldable pub make_group : List ℕ → Registry V → Result (ℕ × Registry V)
  make_group key r =
      let address = r.next_address in
      let added = bump_view_topology_token (record r {
        groups = push_back r.groups (address, record { owned = key; size = 0 });
        next_address = address + 1;
      }) in
      build_group added (record { owned = key; size = 0 }) >>= λ built. ok (
        address,
        record (put_group built.1 address built.0) {
          owned_component_groups =
              register_group_ownership address key built.1.owned_component_groups;
        },
      )

  unfoldable pub group_for_key : List ℕ → Registry V → Result (ℕ × Registry V)
  group_for_key key r = elim (group_with_key key r.groups) [
    | some address ↦ ok (address, r)
    | none ↦ validate_group_key r key >> make_group key r
  ]

  -- `enter_group` and `leave_group` of the group at this address.
  unfoldable pub enter_at : ℕ → ℕ → Registry V → Result (Registry V)
  enter_at address index r = elim (find address r.groups) [
    | none ↦ ok r
    | some group ↦
        enter_group r group index >>= λ entered. ok (put_group entered.1 address entered.0)
  ]

  unfoldable pub leave_at : ℕ → ℕ → Registry V → Result (Registry V)
  leave_at address index r = elim (find address r.groups) [
    | none ↦ ok r
    | some group ↦ leave_group r group index >>= λ left. ok (put_group left.1 address left.0)
  ]

  unfoldable pub refresh_group : ℕ → ℕ → Registry V → Result (Registry V)
  refresh_group address index r = elim (find address r.groups) [
    | none ↦ ok r
    | some group ↦
        if not (group_contains_all r group index)
        then ok r
        else if not (r.defer_enters_depth == 0)
        then ok (record r { deferred_enters = push_back r.deferred_enters (address, index) })
        else enter_at address index r
  ]

  unfoldable pub refresh_group_after_add : ℕ → ℕ → Registry V → Result (Registry V)
  refresh_group_after_add index component r = elim (find component r.owned_component_groups) [
    | none ↦ ok r
    | some address ↦ refresh_group address index r
  ]

  unfoldable pub remove_from_groups_before_component_removal :
      ℕ → ℕ → Registry V → Result (Registry V)
  remove_from_groups_before_component_removal index component r =
      elim (find component r.owned_component_groups) [
        | none ↦ ok r
        | some address ↦ leave_at address index r
      ]

  unfoldable pub begin_deferred_group_enters : Registry V → Registry V
  begin_deferred_group_enters r =
      let deeper = record r { defer_enters_depth = r.defer_enters_depth + 1 } in
      if r.defer_enters_depth == 0 && not (length r.groups == 0)
      then bump_view_topology_token deeper
      else deeper

  -- The loop over the pending enters.
  unfoldable pub enter_pending : List (ℕ × ℕ) → Registry V → Result (Registry V)
  enter_pending [] r = ok r
  enter_pending ((address, index) ∷ rest) r =
      (elim (find address r.groups) [
        | none ↦ ok r
        | some group ↦ if group_contains_all r group index then enter_at address index r else ok r
      ])
      >>= λ entered. enter_pending rest entered

  -- The depth is above 0, as the source asserts.
  unfoldable pub end_deferred_group_enters : Registry V → Result (Registry V)
  end_deferred_group_enters r =
      if not (r.defer_enters_depth - 1 == 0)
      then ok (record r { defer_enters_depth = r.defer_enters_depth - 1 })
      else (enter_pending r.deferred_enters
            (record r { defer_enters_depth = r.defer_enters_depth - 1; deferred_enters = [] })
          >>= λ entered.
              ok (if length entered.groups == 0 then entered else bump_view_topology_token entered))
