-- ===== src/Scene/Merge.antt =====
-- merge/gltf-resolve.ts: the entities of a merged scene.
use forge_hub.Base.{
  Bool, List, Option, Text, [], codes, false, get_or, if◌then◌else◌, insert, lookup, map_option,
  none, some, true, value, ◌++◌, ◌===◌, ◌∷◌, text-Eq,
}
use forge_hub.Scene.{Entity, Triple, map_from, entity_map, all_ids}

pub data MergeSide : Type 0 where
  base incoming : MergeSide

pub record Transform (N : Type 0) : Type 0 where
  pub position : Triple N
  pub rotation_euler_deg : Triple N
  pub scale : Triple N

pub record ParsedEntity (N : Type 0) : Type 0 where
  pub entity_id : Text
  pub parent_entity_id : Option Text
  pub kind : Text
  pub name : Text
  pub path : Text
  pub transform : Option (Transform N)
  pub attributes : Text
  pub render_ref : Option Text

-- The values of pickFieldValue that are not null.
pub data FieldValue (N : Type 0) : Type 0 where
  triple : Triple N → FieldValue N
  text : Text → FieldValue N

abbrev pub side_of : {A : Type 0} → MergeSide → A → A → A
side_of base b i = b
side_of incoming b i = i

abbrev pub is_base : MergeSide → Bool
is_base base = true
is_base incoming = false

abbrev pub field_key : Text → Text → Text
field_key entity_id field = entity_id ++ b':' ∷ field

module _ {N : Type 0} where
  -- `e.posX !== null`
  abbrev pub transform_of : Entity N → Option N → Option (Transform N)
  transform_of e none = none
  transform_of e (some x) =
      some (record { position = e.position; rotation_euler_deg = e.rotation; scale = e.scale })

  unfoldable pub entity_row_to_parsed : Entity N → ParsedEntity N
  entity_row_to_parsed e = record {
    entity_id = e.entity_id;
    parent_entity_id = e.parent_entity_id;
    kind = e.kind;
    name = e.name;
    path = e.path;
    transform = transform_of e e.position.0;
    attributes = e.attributes;
    render_ref = e.render_ref;
  }

  unfoldable pub pick_field_value : Text → Entity N → Entity N → MergeSide → Option (FieldValue N)
  pick_field_value field b i side =
      if field === codes "position"
      then some (triple (side_of side b.position i.position))
      else if field === codes "rotation"
      then some (triple (side_of side b.rotation i.rotation))
      else if field === codes "scale"
      then some (triple (side_of side b.scale i.scale))
      else if field === codes "name"
      then some (text (side_of side b.name i.name))
      else if field === codes "parent"
      then map_option text (side_of side b.parent_entity_id i.parent_entity_id)
      else none

-- `zero` and `one` are the numbers of the default transform.
module _ {N : Type 0} (zero one : N) where
  abbrev pub default_transform : Transform N
  default_transform = record {
    position = (some zero, some zero, some zero);
    rotation_euler_deg = (some zero, some zero, some zero);
    scale = (some one, some one, some one);
  }

  abbrev pub set_text : ParsedEntity N → Text → Text → ParsedEntity N
  set_text ent field value =
      if field === codes "name"
      then record ent { name = value }
      else if field === codes "parent"
      then record ent { parent_entity_id = some value }
      else ent

  abbrev pub set_triple : Transform N → Text → Triple N → Transform N
  set_triple t field value =
      if field === codes "position"
      then record t { position = value }
      else if field === codes "rotation"
      then record t { rotation_euler_deg = value }
      else if field === codes "scale"
      then record t { scale = value }
      else t

  unfoldable pub apply_field_to_parsed : ParsedEntity N → Text → FieldValue N → ParsedEntity N
  apply_field_to_parsed ent field (text value) =
      let named = set_text ent field value in
      record named { transform = some (get_or named.transform default_transform) }
  apply_field_to_parsed ent field (triple value) = record ent {
    transform = some (set_triple (get_or ent.transform default_transform) field value);
  }

  abbrev pub apply_picked : ParsedEntity N → Text → Option (FieldValue N) → ParsedEntity N
  apply_picked ent field none = ent
  apply_picked ent field (some value) = apply_field_to_parsed ent field value

  -- The loop over the fields that changed.
  unfoldable pub merge_fields :
      List (Text × MergeSide)
      → MergeSide
      → Text
      → Entity N
      → Entity N
      → ParsedEntity N
      → List Text
      → ParsedEntity N
  unfolding pick_field_value apply_field_to_parsed lookup
  merge_fields field_sides entity_side id b t ent [] = ent
  merge_fields field_sides entity_side id b t ent (field ∷ fields) =
      let side = get_or (lookup (field_key id field) field_sides) entity_side in
      merge_fields field_sides entity_side id b t
        (apply_picked ent field (pick_field_value field b t side)) fields

  module _ (entity_sides field_sides : List (Text × MergeSide)) (changes : List (Text × List Text))
      (default_side : MergeSide) where
    abbrev pub merge_both : Text → Entity N → Entity N → ParsedEntity N
    merge_both id b t =
        let side = get_or (lookup id entity_sides) default_side in
        merge_fields field_sides side id b t (entity_row_to_parsed (side_of side b t))
          (get_or (lookup id changes) [])

    -- What the loop's body puts into the result for an entity.
    unfoldable pub merged_entity :
        Text → Option (Entity N) → Option (Entity N) → Option (ParsedEntity N)
    unfolding lookup entity_row_to_parsed merge_fields
    merged_entity id none none = none
    merged_entity id none (some t) =
        if is_base (get_or (lookup id entity_sides) default_side)
        then none
        else some (entity_row_to_parsed t)
    merged_entity id (some b) none =
        if is_base (get_or (lookup id entity_sides) base)
        then some (entity_row_to_parsed b)
        else none
    merged_entity id (some b) (some t) = some (merge_both id b t)

    abbrev pub put :
        Text → Option (ParsedEntity N) → List (Text × ParsedEntity N) → List (Text × ParsedEntity N)
    put id none out = out
    put id (some e) out = insert id e out

    -- The loop over the ids.
    unfoldable pub merge_ids :
        List (Text × Entity N)
        → List (Text × Entity N)
        → List Text
        → List (Text × ParsedEntity N)
        → List (Text × ParsedEntity N)
    unfolding merged_entity insert lookup
    merge_ids bases incomings [] out = out
    merge_ids bases incomings (id ∷ ids) out =
        merge_ids bases incomings ids
          (put id (merged_entity id (lookup id bases) (lookup id incomings)) out)

    unfoldable pub build_merged_entities :
        List (Entity N) → List (Entity N) → List (Text × ParsedEntity N)
    unfolding map_from merge_ids
    build_merged_entities base_entities incoming_entities =
        let bases = entity_map base_entities in
        let incomings = entity_map incoming_entities in
        merge_ids bases incomings (all_ids bases incomings) []
