-- ===== src/Scene/Counts.antt =====
-- handlers/gltf-scene/compare.ts: a scene compared with itself.
use forge_hub.Base.{
  ===-self, All, Bool, List, Option, Text, [], ap, count, filter_map, if◌then◌else◌, length, lookup,
  none, refl, some, suc, sym, true, ◌∙◌, ◌∷◌, ◌≡◌, text-Eq,
}
use forge_hub.Scene.{Entity, Triple, entity_map, all_ids}
use forge_hub.Scene.Compare.{
  ChangeType, added, removed, modified, moved, unchanged, Change, approx_eq, same_parent,
  field_changes, changes_of, has_type, triple_eq, change_of, type_eq, type_of,
  compare_gltf_scene_snapshots,
}

abbrev IfSome : {A : Type 0} → (A → Type 0) → Option A → Type 0
IfSome P none = Unit
IfSome P (some a) = P a

All-filter_map :
    {A B : Type 0} (P : B → Type 0) (f : A → Option B) (xs : List A)
    → ((x : A) → IfSome P (f x))
    → All P (filter_map f xs)
All-filter_map {A} {B} P f [] h = tt
All-filter_map {A} {B} P f (x ∷ xs) h = step (f x) (h x) (All-filter_map P f xs h)
  where
    step :
        (o : Option B)
        → IfSome P o
        → All P (filter_map f xs)
        → All P (elim o [ none ↦ filter_map f xs | some y ↦ y ∷ filter_map f xs ])
    step none p rest = rest
    step (some y) p rest = (p, rest)

module _ {N : Type 0} (near : N → N → Bool) (normal : Text → Text)
    (reflexive : (n : N) → near n n ≡ true) where
  approx_eq_self : (o : Option N) → approx_eq near normal o o ≡ true
  approx_eq_self none = refl
  approx_eq_self (some a) = reflexive a

  triple_eq_self : (t : Triple N) → triple_eq near normal t t ≡ true
  triple_eq_self t = rw (approx_eq_self t.0, approx_eq_self t.1, approx_eq_self t.2) refl

  same_parent_self : (o : Option Text) → same_parent near normal o o ≡ true
  same_parent_self none = refl
  same_parent_self (some a) = ===-self a

  field_changes_self : (e : Entity N) → field_changes near normal e e ≡ []
  unfolding field_changes
  field_changes_self e =
      rw
        (
          triple_eq_self e.position,
          triple_eq_self e.rotation,
          triple_eq_self e.scale,
          ===-self (normal e.attributes),
          ===-self e.name,
          same_parent_self e.parent_entity_id,
        )
        refl

  abbrev IsUnchanged : Change N → Type 0
  IsUnchanged c = c.type ≡ unchanged

  change_of-IsUnchanged :
      (id : Text) (o : Option (Entity N)) → IfSome IsUnchanged (change_of near normal id o o)
  unfolding change_of
  change_of-IsUnchanged id none = tt
  change_of-IsUnchanged id (some e) = ap (type_of near normal) (field_changes_self e)

  changes_of-IsUnchanged :
      (m : List (Text × Entity N)) (ids : List Text)
      → All IsUnchanged (changes_of near normal m m ids)
  unfolding changes_of
  changes_of-IsUnchanged m ids =
      All-filter_map IsUnchanged (λ id. change_of near normal id (lookup id m) (lookup id m)) ids
        (λ id. change_of-IsUnchanged id (lookup id m))

count_of_unchanged :
    {N : Type 0} (near : N → N → Bool) (normal : Text → Text) (ty : ChangeType)
    (cs : List (Change N))
    → All (λ (c : Change N). c.type ≡ unchanged) cs
    → count (has_type near normal ty) cs ≡ (if type_eq unchanged ty then length cs else 0)
count_of_unchanged near normal added [] h = refl
count_of_unchanged near normal removed [] h = refl
count_of_unchanged near normal modified [] h = refl
count_of_unchanged near normal moved [] h = refl
count_of_unchanged near normal unchanged [] h = refl
count_of_unchanged near normal added (c ∷ cs) (h, hs) =
    rw h (count_of_unchanged near normal added cs hs)
count_of_unchanged near normal removed (c ∷ cs) (h, hs) =
    rw h (count_of_unchanged near normal removed cs hs)
count_of_unchanged near normal modified (c ∷ cs) (h, hs) =
    rw h (count_of_unchanged near normal modified cs hs)
count_of_unchanged near normal moved (c ∷ cs) (h, hs) =
    rw h (count_of_unchanged near normal moved cs hs)
count_of_unchanged near normal unchanged (c ∷ cs) (h, hs) =
    rw h (ap suc (count_of_unchanged near normal unchanged cs hs))

-- Where every number is near itself, a scene compared with itself has only unchanged entities, and the
-- summary counts all of them so. The sort keeps, for every test, how many changes pass it.
pub compare_gltf_scene_snapshots_self :
    {N : Type 0} (near : N → N → Bool) (normal : Text → Text)
    (collate : List (Change N) → List (Change N)) (base_id target_id : Text) (es : List (Entity N))
    → ((n : N) → near n n ≡ true)
    → ((p : Change N → Bool) (cs : List (Change N)) → count p (collate cs) ≡ count p cs)
    → let r = compare_gltf_scene_snapshots near normal collate base_id target_id es es in
      (r.summary.added ≡ 0)
      × (r.summary.removed ≡ 0)
      × (r.summary.modified ≡ 0)
      × (r.summary.moved ≡ 0)
      × (r.summary.unchanged ≡ length r.changes)
unfolding compare_gltf_scene_snapshots
compare_gltf_scene_snapshots_self {N} near normal collate base_id target_id es reflexive keeps =
    let m = entity_map es in
    let cs = changes_of near normal m m (all_ids m m) in
    let all_unchanged = changes_of-IsUnchanged near normal reflexive m (all_ids m m) in
    let counted = λ (ty : ChangeType).
      keeps (has_type near normal ty) cs ∙ count_of_unchanged near normal ty cs all_unchanged in
    (
      counted added,
      counted removed,
      counted modified,
      counted moved,
      counted unchanged ∙ sym (count_all cs) ∙ sym (keeps (λ c. true) cs) ∙ count_all (collate cs),
    )
  where
    count_all : (cs : List (Change N)) → count (λ c. true) cs ≡ length cs
    count_all [] = refl
    count_all (c ∷ cs) = ap suc (count_all cs)
