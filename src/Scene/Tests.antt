-- ===== src/Scene/Tests.antt =====
-- Examples of gltf-resolve.ts and of the comparison of scenes, with natural numbers.
use forge_hub.Base.{
  List, Option, Text, [], codes, insert, lookup, none, refl, some, ℕ, ◌∷◌, ◌≡◌, text-Eq,
}
use forge_hub.Scene.{Entity, map_from}
use forge_hub.Scene.Compare.{Change}
use forge_hub.Scene.Merge.{
  MergeSide, base, incoming, ParsedEntity, Transform, build_merged_entities, entity_row_to_parsed,
  default_transform,
}
use forge_hub.Scene.Sides.{lookup-picked_side}

abbrev lamp : Option Text → Option ℕ → Text → Entity ℕ
lamp parent x name = record {
  entity_id = codes "lamp";
  parent_entity_id = parent;
  kind = codes "node";
  name = name;
  path = codes "lamp";
  position = (x, x, x);
  rotation = (x, x, x);
  scale = (x, x, x);
  attributes = codes "{}";
  render_ref = none;
}

abbrev picked : List (Text × MergeSide)
picked = (codes "lamp", base) ∷ []

abbrev changed : List Text → List (Text × List Text)
changed fields = (codes "lamp", fields) ∷ []

lookup-picked_side_example :
    lookup (codes "lamp") (
      build_merged_entities 0 1 picked []
        (changed (codes "name" ∷ codes "scale" ∷ []))
        incoming
        (lamp none (some 2) (codes "a") ∷ [])
        (lamp (some (codes "room")) (some 3) (codes "b") ∷ []))
    ≡ some (entity_row_to_parsed (lamp none (some 2) (codes "a")))
lookup-picked_side_example =
    lookup-picked_side 0 1 picked [] (changed (codes "name" ∷ codes "scale" ∷ [])) incoming
      (lamp none (some 2) (codes "a") ∷ []) (lamp (some (codes "room")) (some 3) (codes "b") ∷ [])
      (codes "lamp") base (lamp none (some 2) (codes "a"))
      (lamp (some (codes "room")) (some 3) (codes "b")) (unfold map_from insert lookup in refl)
      (unfold map_from insert lookup in refl) (unfold lookup in refl)
      (λ field. unfold lookup in refl) (2, refl)

-- The incoming branch moves the lamp to the root, and its side is picked for the parent: the lamp stays
-- in the room.
parent_kept :
    lookup (codes "lamp") (
      build_merged_entities 0 1 picked
        ((codes "lamp:parent", incoming) ∷ [])
        (changed (codes "parent" ∷ []))
        incoming
        (lamp (some (codes "room")) (some 2) (codes "a") ∷ [])
        (lamp none (some 2) (codes "a") ∷ []))
    ≡ some (entity_row_to_parsed (lamp (some (codes "room")) (some 2) (codes "a")))
unfolding build_merged_entities
parent_kept = refl

abbrev transform_after : Option (ParsedEntity ℕ) → Option (Transform ℕ)
transform_after none = none
transform_after (some e) = e.transform

-- A change of the name gives an entity without a transform the default one.
transform_invented :
    transform_after (
      lookup (codes "lamp") (
        build_merged_entities 0 1 [] []
          (changed (codes "name" ∷ []))
          incoming
          (lamp none none (codes "a") ∷ [])
          (lamp none none (codes "b") ∷ [])))
    ≡ some (default_transform 0 1)
unfolding build_merged_entities
transform_invented = refl

same : List (Change ℕ) → List (Change ℕ)
same cs = cs
