-- ===== src/Scene/Compare.antt =====
-- handlers/gltf-scene/compare.ts: the changes between two scenes. `near` is the test on two numbers, and
-- `collate` the final sort, whose comparison is that of the locale. `normal` is the text of a JSON text
-- that is parsed and printed.
use forge_hub.Base.{
  Bool, List, Option, Text, [], all, codes, count, false, filter_map, if◌then◌else◌, lookup, none,
  not, some, true, ℕ, ◌&&◌, ◌===◌, ◌||◌, ◌∷◌, text-Eq,
}
use forge_hub.Scene.{Entity, Triple, map_from, entity_map, all_ids}

pub data ChangeType : Type 0 where
  added removed modified moved unchanged : ChangeType

abbrev pub type_eq : ChangeType → ChangeType → Bool
type_eq added added = true
type_eq removed removed = true
type_eq modified modified = true
type_eq moved moved = true
type_eq unchanged unchanged = true
type_eq _ _ = false

-- The values before and after a change of a field.
pub data Values (N : Type 0) : Type 0 where
  triples : Triple N → Triple N → Values N
  texts : Option Text → Option Text → Values N

pub record FieldChange (N : Type 0) : Type 0 where
  pub field : Text
  pub values : Values N

pub record Change (N : Type 0) : Type 0 where
  pub entity_id : Text
  pub name : Text
  pub kind : Text
  pub path : Text
  pub type : ChangeType
  pub field_changes : List (FieldChange N)
  pub before : Option (Entity N)
  pub after : Option (Entity N)

pub record SceneSummary : Type 0 where
  pub added : ℕ
  pub removed : ℕ
  pub modified : ℕ
  pub moved : ℕ
  pub unchanged : ℕ

pub record SceneCompareResult (N : Type 0) : Type 0 where
  pub base_snapshot_id : Text
  pub target_snapshot_id : Text
  pub summary : SceneSummary
  pub changes : List (Change N)

abbrev pub only_if : {A : Type 0} → Bool → A → List A → List A
only_if b x rest = if b then x ∷ rest else rest

abbrev pub is_transform_field : Text → Bool
is_transform_field f = f === codes "position" || f === codes "rotation" || f === codes "scale"

module _ {N : Type 0} (near : N → N → Bool) (normal : Text → Text) where
  abbrev pub approx_eq : Option N → Option N → Bool
  approx_eq none none = true
  approx_eq none (some b) = false
  approx_eq (some a) none = false
  approx_eq (some a) (some b) = near a b

  abbrev pub triple_eq : Triple N → Triple N → Bool
  triple_eq s t = approx_eq s.0 t.0 && approx_eq s.1 t.1 && approx_eq s.2 t.2

  -- `e.parentEntityId` compared by `!==`
  abbrev pub same_parent : Option Text → Option Text → Bool
  same_parent none none = true
  same_parent none (some b) = false
  same_parent (some a) none = false
  same_parent (some a) (some b) = a === b

  unfoldable pub field_changes : Entity N → Entity N → List (FieldChange N)
  field_changes b t =
      only_if (not (triple_eq b.position t.position))
        (record { field = codes "position"; values = triples b.position t.position })
        (only_if (not (triple_eq b.rotation t.rotation))
          (record { field = codes "rotation"; values = triples b.rotation t.rotation })
          (only_if (not (triple_eq b.scale t.scale))
            (record { field = codes "scale"; values = triples b.scale t.scale })
            (only_if (not (normal b.attributes === normal t.attributes))
              (record {
                field = codes "attributes";
                values = texts (some b.attributes) (some t.attributes);
              })
              (only_if (not (b.name === t.name))
                (record { field = codes "name"; values = texts (some b.name) (some t.name) })
                (only_if (not (same_parent b.parent_entity_id t.parent_entity_id))
                  (record {
                    field = codes "parent";
                    values = texts b.parent_entity_id t.parent_entity_id;
                  })
                  [])))))

  abbrev pub type_of : List (FieldChange N) → ChangeType
  type_of [] = unchanged
  type_of (c ∷ cs) =
      if all (λ (f : FieldChange N). is_transform_field f.field) (c ∷ cs) then moved else modified

  -- The body of the loop over the ids.
  unfoldable pub change_of : Text → Option (Entity N) → Option (Entity N) → Option (Change N)
  unfolding field_changes
  change_of id none none = none
  change_of id none (some t) = some (record {
    entity_id = id;
    name = t.name;
    kind = t.kind;
    path = t.path;
    type = added;
    field_changes = [];
    before = none;
    after = some t;
  })
  change_of id (some b) none = some (record {
    entity_id = id;
    name = b.name;
    kind = b.kind;
    path = b.path;
    type = removed;
    field_changes = [];
    before = some b;
    after = none;
  })
  change_of id (some b) (some t) =
      let fc = field_changes b t in
      some (record {
        entity_id = id;
        name = t.name;
        kind = t.kind;
        path = t.path;
        type = type_of fc;
        field_changes = fc;
        before = some b;
        after = some t;
      })

  unfoldable pub changes_of :
      List (Text × Entity N) → List (Text × Entity N) → List Text → List (Change N)
  unfolding change_of lookup
  changes_of bases targets ids =
      filter_map (λ id. change_of id (lookup id bases) (lookup id targets)) ids

  abbrev pub has_type : ChangeType → Change N → Bool
  has_type ty c = type_eq c.type ty

  unfoldable pub compare_gltf_scene_snapshots :
      (List (Change N) → List (Change N))
      → Text
      → Text
      → List (Entity N)
      → List (Entity N)
      → SceneCompareResult N
  unfolding changes_of map_from
  compare_gltf_scene_snapshots collate base_id target_id base_entities target_entities =
      let bases = entity_map base_entities in
      let targets = entity_map target_entities in
      let changes = collate (changes_of bases targets (all_ids bases targets)) in
      record {
        base_snapshot_id = base_id;
        target_snapshot_id = target_id;
        summary = record {
          added = count (has_type added) changes;
          removed = count (has_type removed) changes;
          modified = count (has_type modified) changes;
          moved = count (has_type moved) changes;
          unchanged = count (has_type unchanged) changes;
        };
        changes = changes;
      }
