-- ===== src/Registry/Catalog/Fields.antt =====
-- What `valid_component_field` of src/ashiato.cpp accepts: the test does not overflow.
use ashiato.Base.{
  ℕ, ◌+◌, ◌*◌, ◌/◌, ◌%◌, ◌^◌, ◌<◌, ◌≤◌, ◌≡◌, ◌↔◌, ◌∙◌, sym, true, false, some, none, Option-cases,
  inl, inr, arith,
}
use native.Mathlib.Nat.{le-div_iff_mul-le}
use ashiato.Registry.{
  Registry, ComponentInfo, ComponentField, ComponentRecord, find_component_record,
}
use ashiato.Registry.Catalog.{size_max, fits_in, valid_component_field}

-- The field's elements lie in the component, and are aligned in it.
pub record Fits (component : ComponentInfo) (field : ComponentField) (type : ComponentInfo)
    : Type 0 where
  pub no_tag : type.tag ≡ false
  pub some_elements : 0 < field.count
  pub some_bytes : 0 < type.size
  pub some_alignment : 0 < type.alignment
  pub wide_alignment : type.alignment ≤ component.alignment
  pub aligned : field.offset % type.alignment ≡ 0
  pub inside : field.offset + field.count * type.size ≤ component.size

-- A product that is not above the largest value is not cut off.
count-fits : (count size : ℕ) → 0 < size → count ≤ size_max / size → count * size ≤ size_max
count-fits count size pos h = (le-div_iff_mul-le pos).0 h

fits-count : (count size : ℕ) → 0 < size → count * size ≤ size_max → count ≤ size_max / size
fits-count count size pos h = (le-div_iff_mul-le pos).1 h

fits_in-Fits :
    (component type : ComponentInfo) (field : ComponentField)
    → fits_in component field type ≡ true
    → Fits component field type
unfolding fits_in
fits_in-Fits component type field h =
    let some_bytes : 0 < type.size = ground arith in
    let few : field.count ≤ size_max / type.size = ground arith in
    let whole : field.count * type.size ≤ size_max =
      count-fits field.count type.size some_bytes few in
    let uncut : field.count * type.size % 2 ^ 64 ≡ field.count * type.size = omega (arith, whole) in
    record {
      no_tag = ground arith;
      some_elements = ground arith;
      some_bytes = some_bytes;
      some_alignment = ground arith;
      wide_alignment = ground arith;
      aligned = ground arith;
      inside = ground (arith, uncut);
    }

Fits-fits_in :
    (component type : ComponentInfo) (field : ComponentField)
    → component.size ≤ size_max
    → Fits component field type
    → fits_in component field type ≡ true
unfolding fits_in
Fits-fits_in component type field small f =
    let whole : field.count * type.size ≤ size_max = omega (arith, f.inside, small) in
    let few : field.count ≤ size_max / type.size =
      fits-count field.count type.size f.some_bytes whole in
    let uncut : field.count * type.size % 2 ^ 64 ≡ field.count * type.size = omega (arith, whole) in
    ground (arith, few, uncut, f.inside)

module _ {V : Type 0} where
  valid-found :
      (r : Registry V) (component : ComponentInfo) (field : ComponentField) (type : ComponentRecord)
      → find_component_record r field.type ≡ some type
      → valid_component_field r component field ≡ fits_in component field type.info
  unfolding valid_component_field
  valid-found r component field type found = rw (found, valid_component_field)

  valid-missing :
      (r : Registry V) (component : ComponentInfo) (field : ComponentField)
      → find_component_record r field.type ≡ none
      → valid_component_field r component field ≡ false
  unfolding valid_component_field
  valid-missing r component field missing = rw (missing, valid_component_field)

  -- A field is accepted exactly where its type is a registered component that is no tag, and its
  -- elements are some, aligned, and lie within the component: the products of the test do not
  -- overflow.
  pub valid_component_field_lem :
      (r : Registry V) (component : ComponentInfo) (field : ComponentField)
      → component.size ≤ size_max
      → (valid_component_field r component field ≡ true) ↔ (
          (type : ComponentRecord) × (find_component_record r field.type ≡ some type)
          × Fits component field type.info)
  valid_component_field_lem r component field small =
      elim (Option-cases (find_component_record r field.type)) [
        | inl missing ↦ (
          λ h. absurd (ground (arith, valid-missing r component field missing)),
          λ t. absurd (ground (arith, t.1)),
        )
        | inr (type, found) ↦ (
          λ h. (
            type,
            found,
            fits_in-Fits component type.info field
                (sym (valid-found r component field type found) ∙ h),
          ),
          λ t.
              valid-found r component field t.0 t.1
              ∙ Fits-fits_in component t.0.info field small t.2,
        )
      ]
