-- ===== src/Registry/Catalog.antt =====
-- src/ashiato.cpp: the records of the components, how one is registered and its entity taken out again.
-- The subscribed hooks and the typed bindings are left out.
pub mod Fields
pub mod Register
use ashiato.Base.{
  ℕ, zero, suc, ◌+◌, ◌-◌, ◌*◌, ◌/◌, ◌%◌, ◌^◌, Bool, true, false, not, ◌&&◌, ◌||◌, ◌==◌, ltb, leb,
  if◌then◌else◌, List, [], ◌∷◌, Option, some, none, length, elem, push_back, Result, ok, err,
  logic_error, invalid_argument, out_of_range, throw_if, ◌>>◌, ◌>>=◌,
}
use Prim.Native.Nat.{bit_and}
use ashiato.Base.Maps.{find, assign, erase, find_text, assign_text, erase_text, same_elements}
use ashiato.EntityStore.{Entity, entity_index, alive, create}
use ashiato.Registry.{
  Registry, Text, ComponentInfo, ComponentField, ComponentRecord, GroupRecord,
  find_component_record, storage_for, put_storage,
}
use ashiato.Registry.Groups.{group_contains_component, rebuild_group_ownership}
use ashiato.Storage.Insert.{emplace_or_replace_tag}

pub record ComponentDesc : Type 0 where
  pub name : Text
  pub size : ℕ
  pub alignment : ℕ
  pub fields : List ComponentField

-- `std::numeric_limits<std::size_t>::max()`
abbrev pub size_max : ℕ
size_max = 2 ^ 64 - 1

-- `valid_component_field`, once the record of the field's type is found.
unfoldable pub fits_in : ComponentInfo → ComponentField → ComponentInfo → Bool
fits_in component field type =
    if type.tag || field.count == 0
    then false
    else if type.size == 0
        || type.alignment == 0
        || ltb component.alignment type.alignment
        || not (field.offset % type.alignment == 0)
    then false
    else if ltb (size_max / type.size) field.count
    then false
    else leb field.offset component.size
      && leb (field.count * type.size % 2 ^ 64) (component.size - field.offset)

-- The conditions on the description with which registration starts.
unfoldable pub check_desc : ComponentDesc → Bool → Result (Unit {0})
check_desc desc tag =
    throw_if (desc.size == 0 && not tag) invalid_argument
    >> (throw_if (desc.alignment == 0) invalid_argument
        >> (throw_if (not (bit_and desc.alignment (desc.alignment - 1) == 0)) invalid_argument
            >> throw_if (not (desc.size % desc.alignment == 0)) invalid_argument))

abbrev pub same_flag : Bool → Bool → Bool
same_flag true b = b
same_flag false b = not b

-- The metadata that a second registration must repeat.
unfoldable pub same_metadata : ComponentRecord → ComponentDesc → Bool → Bool → Bool → Bool
same_metadata existing desc trivially_copyable singleton tag =
    existing.info.size == desc.size
    && existing.info.alignment == desc.alignment
    && same_flag existing.info.trivially_copyable trivially_copyable
    && same_flag existing.info.tag tag
    && same_flag existing.singleton singleton

unfoldable pub new_record :
    ComponentDesc → Bool → Bool → Bool → Bool → Text → Entity → ComponentRecord
new_record desc copyable trivially_copyable singleton tag type_key entity = record {
  entity = entity;
  name = desc.name;
  type_key = type_key;
  info = record {
    size = desc.size;
    alignment = desc.alignment;
    trivially_copyable = trivially_copyable;
    tag = tag;
  };
  fields = desc.fields;
  copyable = copyable;
  primitive = 0;
  singleton = singleton;
}

-- `std::remove_if` on the groups that own the component
unfoldable pub groups_without : ℕ → List (ℕ × GroupRecord) → List (ℕ × GroupRecord)
groups_without component [] = []
groups_without component ((address, group) ∷ rest) =
    let kept = groups_without component rest in
    if group_contains_component group component then kept else (address, group) ∷ kept

unfoldable pub cleared_types : Entity → List Entity → List Entity
cleared_types component [] = []
cleared_types component (primitive ∷ rest) =
    (if primitive.value == component.value then record { value = 0 } else primitive)
    ∷ cleared_types component rest

abbrev pub find_nonempty : Text → List (Text × ℕ) → Option ℕ
find_nonempty text m = if length text == 0 then none else find_text text m

module _ {V : Type 0} where
  unfoldable pub valid_component_field : Registry V → ComponentInfo → ComponentField → Bool
  valid_component_field r component field = elim (find_component_record r field.type) [
    | none ↦ false
    | some type ↦ fits_in component field type.info
  ]

  unfoldable pub valid_component_fields : Registry V → ComponentInfo → List ComponentField → Bool
  valid_component_fields r component [] = true
  valid_component_fields r component (field ∷ rest) =
      valid_component_field r component field && valid_component_fields r component rest

  unfoldable pub set_component_fields :
      Registry V → Entity → List ComponentField → Bool × Registry V
  set_component_fields r component fields = elim (find_component_record r component) [
    | none ↦ (false, r)
    | some found ↦ if not (valid_component_fields r found.info fields) then (false, r) else (
      true,
      record r {
        records = assign (entity_index component) (record found { fields = fields }) r.records;
      },
    )
  ]

  unfoldable pub add_component_field : Registry V → Entity → ComponentField → Bool × Registry V
  add_component_field r component field = elim (find_component_record r component) [
    | none ↦ (false, r)
    | some found ↦ if not (valid_component_field r found.info field) then (false, r) else (
      true,
      record r {
        records =
            assign (entity_index component) (record found { fields = push_back found.fields field })
              r.records;
      },
    )
  ]

  -- The name is known: the record takes the type key and the lifecycle, if a key is given.
  unfoldable pub adopt_type_key :
      Registry V → ℕ → ComponentRecord → Text → Bool → Result (Entity × Registry V)
  adopt_type_key r index existing type_key copyable =
      if length type_key == 0
      then ok (existing.entity, r)
      else (throw_if
            (not (length existing.type_key == 0) && not (same_elements existing.type_key type_key))
            logic_error
          >> ok (
            existing.entity,
            record r {
              records =
                  assign index (record existing { type_key = type_key; copyable = copyable })
                    r.records;
              type_keys = assign_text type_key index r.type_keys;
            },
          ))

  -- The type key is known: the record takes the lifecycle.
  unfoldable pub adopt_lifecycle : Registry V → ℕ → ComponentRecord → Bool → Entity × Registry V
  adopt_lifecycle r index existing copyable = (
    existing.entity,
    record r { records = assign index (record existing { copyable = copyable }) r.records },
  )

  unfoldable pub enter_record : Registry V → Entity → ComponentRecord → Registry V
  enter_record r component found = record r {
    names =
        if length found.name == 0
        then r.names
        else assign_text found.name (entity_index component) r.names;
    type_keys =
        if length found.type_key == 0
        then r.type_keys
        else assign_text found.type_key (entity_index component) r.type_keys;
    records = assign (entity_index component) found r.records;
  }

  -- `create()`, and the record of the new entity
  unfoldable pub register_new :
      Registry V → ComponentDesc → Bool → Bool → Bool → Bool → Text → Result (Entity × Registry V)
  register_new r desc copyable trivially_copyable singleton tag type_key =
      let info : ComponentInfo = record {
        size = desc.size;
        alignment = desc.alignment;
        trivially_copyable = trivially_copyable;
        tag = tag;
      } in
      throw_if (not (valid_component_fields r info desc.fields)) invalid_argument
      >> (create r.entity_store >>= λ made. ok (
        made.0,
        enter_record (record r { entity_store = made.1 }) made.0
            (new_record desc copyable trivially_copyable singleton tag type_key made.0),
      ))

  -- `records.at(index)`, and the test of the metadata
  unfoldable pub existing_record :
      Registry V → ℕ → ComponentDesc → Bool → Bool → Bool → Result ComponentRecord
  existing_record r index desc trivially_copyable singleton tag = elim (find index r.records) [
    | none ↦ err out_of_range
    | some existing ↦
        throw_if (not (same_metadata existing desc trivially_copyable singleton tag)) logic_error
        >> ok existing
  ]

  unfoldable pub register_component_impl :
      Registry V → ComponentDesc → Bool → Bool → Bool → Bool → Text → Result (Entity × Registry V)
  register_component_impl r desc copyable trivially_copyable singleton tag type_key =
      check_desc desc tag >> elim (find_nonempty desc.name r.names) [
        | some index ↦ existing_record r index desc trivially_copyable singleton tag >>= λ existing.
            adopt_type_key r index existing type_key copyable
        | none ↦ elim (find_nonempty type_key r.type_keys) [
          | some index ↦
              existing_record r index desc trivially_copyable singleton tag >>= λ existing.
              ok (adopt_lifecycle r index existing copyable)
          | none ↦ register_new r desc copyable trivially_copyable singleton tag type_key
        ]
      ]

  unfoldable pub register_component : Registry V → ComponentDesc → Result (Entity × Registry V)
  register_component r desc = register_component_impl r desc false true false false []

  unfoldable pub register_tag : Registry V → Text → Result (Entity × Registry V)
  register_tag r name =
      register_component_impl r (record { name = name; size = 0; alignment = 1; fields = [] }) false
        true false true []

  unfoldable pub forget_component : Registry V → Entity → ComponentRecord → Registry V
  forget_component r component found =
      let index = entity_index component in
      let regrouped =
        rebuild_group_ownership (record r { groups = groups_without index r.groups }) in
      record regrouped {
        storages = erase index regrouped.storages;
        names =
            if length found.name == 0
            then regrouped.names
            else erase_text found.name regrouped.names;
        type_keys =
            if length found.type_key == 0
            then regrouped.type_keys
            else erase_text found.type_key regrouped.type_keys;
        primitive_types = cleared_types component regrouped.primitive_types;
        job_tag =
            if regrouped.job_tag.value == component.value
            then record { value = 0 }
            else regrouped.job_tag;
        records = erase index regrouped.records;
      }

  unfoldable pub unregister_component_entity : Registry V → Entity → Registry V
  unregister_component_entity r component = elim (find_component_record r component) [
    | none ↦ r
    | some found ↦ forget_component r component found
  ]

  unfoldable pub add_system_tag : Registry V → Entity → Result (Registry V)
  add_system_tag r entity =
      if r.system_tag.value == 0 || not (alive r.entity_store entity)
      then ok r
      else (storage_for r r.system_tag >>= λ found.
          emplace_or_replace_tag entity found.0 >>= λ tagged.
          ok (put_storage found.1 (entity_index r.system_tag) tagged))

  unfoldable pub add_job_tag : Registry V → Entity → Result (Registry V)
  add_job_tag r entity =
      if r.job_tag.value == 0 || not (alive r.entity_store entity)
      then ok r
      else (storage_for r r.job_tag >>= λ found. emplace_or_replace_tag entity found.0 >>= λ tagged.
          ok (put_storage found.1 (entity_index r.job_tag) tagged))

  -- `records[index].primitive = kind`
  unfoldable pub set_primitive : Registry V → ℕ → ℕ → Registry V
  set_primitive r index kind = elim (find index r.records) [
    | none ↦ r
    | some found ↦ record r { records = assign index (record found { primitive = kind }) r.records }
  ]

  -- `sizeof` and `alignof` of a primitive, and its kind, are given.
  unfoldable pub register_primitive : Registry V → Text → ℕ → ℕ → ℕ → Result (Entity × Registry V)
  register_primitive r name size alignment kind =
      register_component r (record { name = name; size = size; alignment = alignment; fields = [] })
      >>= λ made.
          add_system_tag (set_primitive made.1 (entity_index made.0) kind) made.0 >>= λ tagged.
          ok (made.0, tagged)

  unfoldable pub register_system_tag : Registry V → Text → Result (Registry V)
  register_system_tag r name =
      register_tag r name >>= λ made. add_system_tag (record made.1 { system_tag = made.0 }) made.0

  unfoldable pub register_job_tag : Registry V → Text → Result (Registry V)
  register_job_tag r name =
      register_tag r name >>= λ made. add_system_tag (record made.1 { job_tag = made.0 }) made.0
