-- ===== src/Scene.antt =====
-- apps/api/src/handlers/gltf-scene/compare.ts and merge/gltf-resolve.ts (Merge): scenes as entities. The
-- numbers of a transform are a parameter, and so is whether two of them are near; a parsed JSON text
-- stands as the text.
pub mod Merge
pub mod Compare
pub mod Picks
pub mod Sides
pub mod Counts
pub mod Tests
use forge_hub.Base.{List, Option, Text, [], add_all, insert, map, ◌++◌, ◌∷◌, text-Eq}

abbrev pub Triple : Type 0 → Type 0
Triple N = Option N × Option N × Option N

-- A row of `entity`.
pub record Entity (N : Type 0) : Type 0 where
  pub entity_id : Text
  pub parent_entity_id : Option Text
  pub kind : Text
  pub name : Text
  pub path : Text
  pub position : Triple N
  pub rotation : Triple N
  pub scale : Triple N
  pub attributes : Text
  pub render_ref : Option Text

-- `new Map(entities.map((e) => [e.entityId, e]))`
unfoldable pub map_from :
    {N : Type 0} → List (Text × Entity N) → List (Entity N) → List (Text × Entity N)
unfolding insert
map_from m [] = m
map_from m (e ∷ es) = map_from (insert e.entity_id e m) es

abbrev pub entity_map : {N : Type 0} → List (Entity N) → List (Text × Entity N)
entity_map es = map_from [] es

abbrev pub keys : {V : Type 0} → List (Text × V) → List Text
keys m = map (λ p. p.0) m

-- `new Set([...a.keys(), ...b.keys()])`
abbrev pub all_ids : {V : Type 0} → List (Text × V) → List (Text × V) → List Text
all_ids a b = add_all [] (keys a ++ keys b)
