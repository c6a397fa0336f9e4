-- ===== src/Tests/Registries.antt =====
-- The theorems on the registry at concrete inputs.
use ashiato.Base.{
  ℕ, zero, suc, ◌+◌, ◌-◌, ◌^◌, ◌<◌, ◌≤◌, ◌≡◌, ◌↔◌, refl, true, false, not, ◌&&◌, ◌||◌, ◌==◌, [],
  ◌∷◌, elem, arith, some, ok, sym, ◌∙◌,
}
use mathlib.Core.Path.{subst}
use ashiato.Base.Maps.{find, same_elements}
use ashiato.EntityStore.{
  Entity, entity_index, entity_version, alive, create, pack, slot_index, slot_version,
}
use ashiato.Storage.{Storage, contains}
use ashiato.Storage.Laws.Invariant.{IsValid}
use ashiato.Storage.Laws.Position.{position-inside}
use ashiato.Registry.{
  Registry, Text, ComponentInfo, ComponentField, ComponentRecord, GroupRecord,
  find_component_record, require_component_record, find_storage, same_entity,
}
use ashiato.Registry.Groups.{group_contains_all, all_hold, holds_index, enter_group, leave_group}
use ashiato.Registry.Packing.{IsRegistered, IsPacked, has_component, position, all_hold-each}
use ashiato.Registry.Packing.Shifts.{SameContents}
use ashiato.Registry.Packing.Enter.{enter_group_lem}
use ashiato.Registry.Packing.Leave.{leave_group_lem}
use ashiato.Registry.Catalog.{
  ComponentDesc, check_desc, valid_component_field, valid_component_fields, new_record,
  enter_record, register_new, register_component_impl, register_component,
}
use ashiato.Registry.Catalog.Fields.{Fits, valid_component_field_lem}
use ashiato.Registry.Catalog.Register.{register_component_again}
use ashiato.Tests.Storages.{two, two-IsValid}

abbrev pub word : ComponentInfo
word = record { size = 4; alignment = 4; trivially_copyable = true; tag = false }

abbrev pub entity_of : ℕ → Entity
entity_of index = record { value = 2 ^ 32 + index }

abbrev pub record_for : ℕ → Text → ComponentRecord
record_for index name = record {
  entity = entity_of index;
  name = name;
  type_key = [];
  info = word;
  fields = [];
  copyable = false;
  primitive = 0;
  singleton = false;
}

-- The components 0 and 2, whose storages both hold the indices 3 and 1.
abbrev pub pair : Registry ℕ
pair = record {
  entity_store = record {
    slots = 4294967296 ∷ 4294967297 ∷ 4294967298 ∷ 4294967299 ∷ [];
    free_head = 2 ^ 32 - 1;
  };
  records = (0, record_for 0 (65 ∷ [])) ∷ (2, record_for 2 (66 ∷ [])) ∷ [];
  names = (65 ∷ [], 0) ∷ (66 ∷ [], 2) ∷ [];
  type_keys = [];
  singleton_entity = record { value = 0 };
  primitive_types = [];
  system_tag = record { value = 0 };
  job_tag = record { value = 0 };
  storages = (0, two) ∷ (2, two) ∷ [];
  view_topology_token = 1;
  groups = [];
  next_address = 0;
  owned_component_groups = [];
  deferred_enters = [];
  defer_enters_depth = 0;
}

abbrev group_of : ℕ → GroupRecord
group_of size = record { owned = 0 ∷ 2 ∷ []; size = size }

pub found_two : (c : ℕ) → elem c (0 ∷ 2 ∷ []) ≡ true → find c pair.storages ≡ some two
found_two zero h = refl
found_two (suc zero) h = absurd (ground arith)
found_two (suc (suc zero)) h = refl
found_two (suc (suc (suc c))) h = absurd (ground arith)

pair-IsRegistered : (c : ℕ) → elem c (0 ∷ 2 ∷ []) ≡ true → IsRegistered pair c
unfolding require_component_record find_component_record alive entity_index entity_version
    slot_index slot_version same_entity
pair-IsRegistered zero h = record { own_slot = refl; known = (record_for 0 (65 ∷ []), refl) }
pair-IsRegistered (suc zero) h = absurd (ground arith)
pair-IsRegistered (suc (suc zero)) h = record {
  own_slot = refl;
  known = (record_for 2 (66 ∷ []), refl);
}
pair-IsRegistered (suc (suc (suc c))) h = absurd (ground arith)

some_eq : {a b : Storage ℕ} → some a ≡ some b → a ≡ b
some_eq h = cc

in_two :
    (c i : ℕ) → elem c (0 ∷ 2 ∷ []) ≡ true → has_component pair c i ≡ true → position pair c i < 2
unfolding holds_index
in_two c i e has =
    rw (found_two c e) (position-inside two i two-IsValid.dense (rw (found_two c e) at has))

-- With all the indices in the group, and with none.
full_pair : IsPacked pair (group_of 2) (λ i. false)
full_pair = record {
  distinct = (refl, (refl, tt));
  registered = pair-IsRegistered;
  valid = λ c s e there. subst (λ x. IsValid x) (some_eq (sym (found_two c e) ∙ there)) two-IsValid;
  bound = λ c e. rw (found_two c e) (omega arith);
  aligned = λ c d i ec ed lt. rw (found_two c ec, found_two d ed) refl;
  full =
      λ c i e all new. in_two c i e (all_hold-each pair (0 ∷ 2 ∷ []) i pair-IsRegistered all c e);
}

empty_pair : IsPacked pair (group_of 0) (λ i. true)
empty_pair = record {
  distinct = (refl, (refl, tt));
  registered = pair-IsRegistered;
  valid = full_pair.valid;
  bound = λ c e. omega arith;
  aligned = λ c d i ec ed lt. absurd (omega arith);
  full = λ c i e all new. absurd (ground arith);
}

all_1 : group_contains_all pair (group_of 0) 1 ≡ true
unfolding group_contains_all all_hold holds_index contains find_storage entity_index
all_1 = refl

enter_group_lem_example :
    (g' : GroupRecord) × (r' : Registry ℕ) × (enter_group pair (group_of 0) 1 ≡ ok (g', r'))
    × (g'.owned ≡ 0 ∷ 2 ∷ [])
    × IsPacked r' g' (λ j. not (j == 1) && true)
    × SameContents pair r'
enter_group_lem_example = enter_group_lem pair (group_of 0) (λ i. true) 1 empty_pair all_1

leave_group_lem_example :
    (g' : GroupRecord) × (r' : Registry ℕ) × (leave_group pair (group_of 2) 3 ≡ ok (g', r'))
    × (g'.owned ≡ 0 ∷ 2 ∷ [])
    × IsPacked r' g' (λ j. j == 3 || false)
    × ((c : ℕ) → elem c (0 ∷ 2 ∷ []) ≡ true → g'.size ≤ position r' c 3)
    × SameContents pair r'
leave_group_lem_example = leave_group_lem pair (group_of 2) (λ i. false) 3 full_pair

-- Three words of the component 0 in a component of 16 bytes.
abbrev wide : ComponentInfo
wide = record { size = 16; alignment = 8; trivially_copyable = true; tag = false }

abbrev three_words : ComponentField
three_words = record { name = 67 ∷ []; offset = 4; type = entity_of 0; count = 3 }

valid_component_field_lem_example : (valid_component_field pair wide three_words ≡ true) ↔ (
    (type : ComponentRecord) × (find_component_record pair three_words.type ≡ some type)
    × Fits wide three_words type.info)
valid_component_field_lem_example = valid_component_field_lem pair wide three_words (omega arith)

-- A new name, and the registry afterwards.
abbrev other : ComponentDesc
other = record { name = 68 ∷ []; size = 8; alignment = 8; fields = [] }

abbrev with_other : Registry ℕ
with_other = record pair {
  entity_store = record {
    slots = 4294967296 ∷ 4294967297 ∷ 4294967298 ∷ 4294967299 ∷ 4294967300 ∷ [];
    free_head = 2 ^ 32 - 1;
  };
  records =
      (0, record_for 0 (65 ∷ []))
      ∷ (2, record_for 2 (66 ∷ []))
      ∷ (
        4,
        record (record_for 4 (68 ∷ [])) {
          info = record { size = 8; alignment = 8; trivially_copyable = true; tag = false };
        },
      )
      ∷ [];
  names = (65 ∷ [], 0) ∷ (66 ∷ [], 2) ∷ (68 ∷ [], 4) ∷ [];
}

registers_other : register_component pair other ≡ ok (entity_of 4, with_other)
unfolding register_component register_component_impl check_desc same_elements valid_component_fields
    register_new create enter_record new_record pack slot_index slot_version entity_index
registers_other = refl

register_component_again_example :
    register_component with_other other ≡ ok (entity_of 4, with_other)
register_component_again_example =
    register_component_again pair with_other other (entity_of 4) (omega arith) registers_other
