-- ===== src/Registry/Catalog/Register.antt =====
-- Registering a component again, and destroying a tag of the registry (src/ashiato.cpp).
use ashiato.Base.{
  bind-ok, then-ok, ok-eq, ℕ, ◌<◌, ◌≡◌, ◌∙◌, refl, true, false, ◌==◌, [], some, Option-cases, inl,
  inr, arith, length, ok, ◌>>=◌, ==_self,
}
use mathlib.Core.Path.{subst}
use ashiato.Base.Maps.{find, find-assign, find_text, find-assign_text}
use ashiato.EntityStore.{Entity, EntityStore, entity_index, create}
use ashiato.Registry.{Registry, Text, ComponentRecord}
use ashiato.Registry.Catalog.{
  ComponentDesc, check_desc, same_metadata, existing_record, new_record, enter_record, register_new,
  adopt_type_key, register_component_impl, register_component,
}

not_empty : (name : Text) → 0 < length name → (length name == 0) ≡ false
not_empty name h = ground arith

same_metadata_self :
    (desc : ComponentDesc) (e : Entity)
    → same_metadata (new_record desc false true false false [] e) desc true false false ≡ true
unfolding same_metadata new_record
same_metadata_self desc e = ground arith

module _ {V : Type 0} where
  -- A known name with the same metadata gives the entity of its record.
  known_name :
      (r : Registry V) (desc : ComponentDesc) (index : ℕ) (existing : ComponentRecord)
      → 0 < length desc.name
      → check_desc desc false ≡ ok tt
      → find_text desc.name r.names ≡ some index
      → existing_record r index desc true false false ≡ ok existing
      → register_component r desc ≡ ok (existing.entity, r)
  unfolding register_component register_component_impl adopt_type_key
  known_name r desc index existing named checked there known =
      simp (not_empty desc.name named, checked, there, known) refl

  existing-at :
      (r : Registry V) (index : ℕ) (desc : ComponentDesc) (existing : ComponentRecord)
      → find index r.records ≡ some existing
      → same_metadata existing desc true false false ≡ true
      → existing_record r index desc true false false ≡ ok existing
  unfolding existing_record
  existing-at r index desc existing there same = rw (there, existing_record) (rw same refl)

  records-enter_record :
      (r : Registry V) (component : Entity) (found : ComponentRecord)
      → find (entity_index component) (enter_record r component found).records ≡ some found
  unfolding enter_record
  records-enter_record r component found =
      find-assign (entity_index component) (entity_index component) found r.records
      ∙ simp (==_self (entity_index component)) refl

  -- A new component is found by its name, in its record.
  new_name :
      (r : Registry V) (desc : ComponentDesc) (made : Entity × EntityStore)
      → 0 < length desc.name
      → check_desc desc false ≡ ok tt
      → register_component
          (enter_record
            (record r { entity_store = made.1 })
            made.0
            (new_record desc false true false false [] made.0))
          desc
        ≡ ok (
          made.0,
          enter_record
              (record r { entity_store = made.1 })
              made.0
              (new_record desc false true false false [] made.0),
        )
  unfolding new_record
  new_name r desc made named checked =
      known_name
        (enter_record (record r { entity_store = made.1 }) made.0
          (new_record desc false true false false [] made.0))
        desc (entity_index made.0) (new_record desc false true false false [] made.0) named checked
        (unfold enter_record new_record in
          simp (not_empty desc.name named)
            (find-assign_text desc.name (entity_index made.0) r.names))
        (existing-at
          (enter_record (record r { entity_store = made.1 }) made.0
            (new_record desc false true false false [] made.0))
          (entity_index made.0) desc (new_record desc false true false false [] made.0)
          (records-enter_record (record r { entity_store = made.1 }) made.0
            (new_record desc false true false false [] made.0))
          (same_metadata_self desc made.0))

  -- Where a component with a name has been registered, registering the same description again gives
  -- the same entity and changes nothing.
  pub register_component_again :
      (r r' : Registry V) (desc : ComponentDesc) (e : Entity)
      → 0 < length desc.name
      → register_component r desc ≡ ok (e, r')
      → register_component r' desc ≡ ok (e, r')
  unfolding register_component register_component_impl adopt_type_key register_new
  register_component_again r r' desc e named h =
      let (checked, rest) = then-ok (check_desc desc false) _ (e, r') h in
      elim (Option-cases (find_text desc.name r.names)) [
        | inr (index, there) ↦
            let rest' : (existing_record r index desc true false false >>= λ existing.
            adopt_type_key r index existing [] false)
                ≡ ok (e, r') =
              simp (not_empty desc.name named, there) at rest in
            let (existing, known, result) =
              bind-ok (existing_record r index desc true false false) _ (e, r') rest' in
            let same : (existing.entity, r) ≡ (e, r') = ok-eq result in
            subst (λ x. register_component x.1 desc ≡ ok x) same
              (known_name r desc index existing named checked there known)
        | inl new ↦
            let rest' : register_new r desc false true false false [] ≡ ok (e, r') =
              simp (not_empty desc.name named, new) at rest in
            let (fields, made_ok) = then-ok _ _ (e, r') rest' in
            let (made, done, result) = bind-ok (create r.entity_store) _ (e, r') made_ok in
            subst (λ x. register_component x.1 desc ≡ ok x) (ok-eq result)
              (new_name r desc made named checked)
      ]
