-- ===== src/Scene/Sides.antt =====
-- merge/gltf-resolve.ts: an entity for which one side is picked comes out as on that side.
use forge_hub.Base.{
  Bool-cases, List, Option, Text, [], ap, ap₂, codes, false, get_or, if◌then◌else◌, inl, inr,
  lookup, map_option, none, refl, some, sym, true, value, ◌===◌, ◌∙◌, ◌∷◌, ◌≡◌, text-Eq,
}
use forge_hub.Scene.{Entity, Triple, entity_map}
use forge_hub.Scene.Merge.{
  MergeSide, base, incoming, ParsedEntity, Transform, FieldValue, text, triple,
  entity_row_to_parsed, apply_field_to_parsed, pick_field_value, apply_picked, transform_of,
  set_text, side_of, set_triple, default_transform, merge_fields, field_key, build_merged_entities,
  merged_entity,
}
use forge_hub.Scene.Picks.{lookup-build_merged_entities}

module _ {N : Type 0} (zero one : N) where
  abbrev transform : Entity N → Transform N
  transform x = record { position = x.position; rotation_euler_deg = x.rotation; scale = x.scale }

  -- An entity with a transform.
  abbrev pub IsPlaced : Entity N → Type 0
  IsPlaced x = (v : N) × (x.position.0 ≡ some v)

  has_transform :
      (x : Entity N) → IsPlaced x → (entity_row_to_parsed x).transform ≡ some (transform x)
  unfolding entity_row_to_parsed
  has_transform x (v, e) = ap (transform_of x) e

  same_transform :
      (ent : ParsedEntity N) (t : Transform N) (f : Transform N → Transform N) (d : Transform N)
      → ent.transform ≡ some t
      → f t ≡ t
      → record ent { transform = some (f (get_or ent.transform d)) } ≡ ent
  same_transform ent t f d e h =
      ap (λ o. record ent { transform = o }) (ap (λ o. some (f (get_or o d))) e ∙ ap some h ∙ sym e)

  apply_triple :
      (x : Entity N) (field : Text) (value : Triple N)
      → IsPlaced x
      → set_triple zero one (transform x) field value ≡ transform x
      → apply_field_to_parsed zero one (entity_row_to_parsed x) field (triple value)
        ≡ entity_row_to_parsed x
  unfolding apply_field_to_parsed
  apply_triple x field value placed h =
      same_transform (entity_row_to_parsed x) (transform x) (λ t. set_triple zero one t field value)
        (default_transform zero one) (has_transform x placed) h

  apply_text :
      (x : Entity N) (field value : Text)
      → IsPlaced x
      → set_text zero one (entity_row_to_parsed x) field value ≡ entity_row_to_parsed x
      → apply_field_to_parsed zero one (entity_row_to_parsed x) field (text value)
        ≡ entity_row_to_parsed x
  unfolding apply_field_to_parsed
  apply_text x field value placed h =
      ap
        (λ (ent : ParsedEntity N). record ent {
          transform = some (get_or ent.transform (default_transform zero one));
        })
        h
      ∙ same_transform (entity_row_to_parsed x) (transform x) (λ t. t) (default_transform zero one)
          (has_transform x placed) refl

  -- What one entity holds for a field.
  abbrev value_of : Text → Entity N → Option (FieldValue N)
  value_of field x =
      if field === codes "position"
      then some (triple x.position)
      else if field === codes "rotation"
      then some (triple x.rotation)
      else if field === codes "scale"
      then some (triple x.scale)
      else if field === codes "name"
      then some (text x.name)
      else if field === codes "parent"
      then map_option text x.parent_entity_id
      else none

  pick-value_of :
      (field : Text) (b t : Entity N) (side : MergeSide)
      → pick_field_value field b t side ≡ value_of field (side_of side b t)
  unfolding pick_field_value
  pick-value_of field b t base = refl
  pick-value_of field b t incoming = refl

  apply_same :
      (x : Entity N) (field : Text)
      → IsPlaced x
      → apply_picked zero one (entity_row_to_parsed x) field (value_of field x)
        ≡ entity_row_to_parsed x
  apply_same x field placed = elim (Bool-cases (field === codes "position")) [
    | inl e ↦ rw e (apply_triple x field x.position placed (rw e refl))
    | inr n1 ↦ elim (Bool-cases (field === codes "rotation")) [
      | inl e ↦ rw (n1, e) (apply_triple x field x.rotation placed (rw (n1, e) refl))
      | inr n2 ↦ elim (Bool-cases (field === codes "scale")) [
        | inl e ↦ rw (n1, n2, e) (apply_triple x field x.scale placed (rw (n1, n2, e) refl))
        | inr n3 ↦ elim (Bool-cases (field === codes "name")) [
          | inl e ↦
              rw (n1, n2, n3, e)
                (apply_text x field x.name placed (rw e (unfold entity_row_to_parsed in refl)))
          | inr n4 ↦ elim (Bool-cases (field === codes "parent")) [
            | inl e ↦ rw (n1, n2, n3, n4, e) (parent n4 e x.parent_entity_id refl)
            | inr n5 ↦ rw (n1, n2, n3, n4, n5) refl
          ]
        ]
      ]
    ]
  ]
    where
      parent :
          (field === codes "name") ≡ false
          → (field === codes "parent") ≡ true
          → (o : Option Text) → x.parent_entity_id ≡ o
          → apply_picked zero one (entity_row_to_parsed x) field (map_option text o)
            ≡ entity_row_to_parsed x
      parent not_name e none q = refl
      parent not_name e (some p) q = apply_text x field p placed (
          rw (not_name, e)
            (unfold entity_row_to_parsed in
              ap (λ o. record (entity_row_to_parsed x) { parent_entity_id = o }) (sym q)))

  merge_fields-same :
      (field_sides : List (Text × MergeSide)) (side : MergeSide) (id : Text) (b t : Entity N)
      (fields : List Text)
      → ((field : Text) → lookup (field_key id field) field_sides ≡ none)
      → IsPlaced (side_of side b t)
      → merge_fields zero one field_sides side id b t
          (entity_row_to_parsed (side_of side b t))
          fields
        ≡ entity_row_to_parsed (side_of side b t)
  unfolding merge_fields
  merge_fields-same field_sides side id b t [] free placed = refl
  merge_fields-same field_sides side id b t (field ∷ fields) free placed =
      let x = side_of side b t in
      ap (λ ent. merge_fields zero one field_sides side id b t ent fields)
        (ap
            (λ o.
              apply_picked zero one (entity_row_to_parsed x) field
                (pick_field_value field b t (get_or o side)))
            (free field)
          ∙ ap (apply_picked zero one (entity_row_to_parsed x) field) (pick-value_of field b t side)
          ∙ apply_same x field placed)
      ∙ merge_fields-same field_sides side id b t fields free placed

  -- Where a side is picked for an entity that both scenes have, and none for its fields, the merged
  -- scene holds the entity as that side has it, whatever fields are said to have changed. The picked
  -- entity has a transform.
  pub lookup-picked_side :
      (entity_sides field_sides : List (Text × MergeSide)) (changes : List (Text × List Text))
      (default_side : MergeSide) (base_entities incoming_entities : List (Entity N)) (id : Text)
      (side : MergeSide) (b t : Entity N)
      → lookup id (entity_map base_entities) ≡ some b
      → lookup id (entity_map incoming_entities) ≡ some t
      → lookup id entity_sides ≡ some side
      → ((field : Text) → lookup (field_key id field) field_sides ≡ none)
      → (v : N) × ((side_of side b t).position.0 ≡ some v)
      → lookup id (
          build_merged_entities zero one entity_sides field_sides changes default_side base_entities
            incoming_entities)
        ≡ some (entity_row_to_parsed (side_of side b t))
  lookup-picked_side entity_sides field_sides changes default_side base_entities incoming_entities
        id side b t in_base in_incoming picked free placed =
      lookup-build_merged_entities zero one entity_sides field_sides changes default_side
        base_entities incoming_entities id
      ∙ ap₂ (merged_entity zero one entity_sides field_sides changes default_side id) in_base
          in_incoming
      ∙ unfold merged_entity in
        ap some (
          ap
            (λ o.
              merge_fields zero one field_sides (get_or o default_side) id b t
                (entity_row_to_parsed (side_of (get_or o default_side) b t))
                (get_or (lookup id changes) []))
            picked
          ∙ merge_fields-same field_sides side id b t (get_or (lookup id changes) []) free placed)
