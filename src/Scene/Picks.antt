-- ===== src/Scene/Picks.antt =====
-- merge/gltf-resolve.ts: the merged scene holds for each entity what the picks call for.
use forge_hub.Base.{
  ===→eq, Bool, Bool-cases, List, Option, Text, [], add, add_all, any-append, ap, false,
  if◌then◌else◌, includes, inl, inr, lookup, lookup-insert, none, refl, some, subst, sym, true,
  ◌++◌, ◌===◌, ◌||◌, ◌∙◌, ◌∷◌, ◌≡◌, text-Eq,
}
use forge_hub.Scene.{Entity, keys, all_ids, entity_map}
use forge_hub.Scene.Merge.{
  MergeSide, ParsedEntity, merged_entity, put, merge_ids, build_merged_entities,
}

lookup-keys :
    {V : Type 0} (m : List (Text × V)) (k : Text) → includes (keys m) k ≡ false → lookup k m ≡ none
unfolding lookup
lookup-keys [] k h = refl
lookup-keys ((j, v) ∷ m) k h = elim (Bool-cases (j === k)) [
  | inl t ↦ absurd (cc (rw t at h))
  | inr f ↦ rw f (lookup-keys m k (rw f at h))
]

includes-add_all :
    (xs ys : List Text) (k : Text) → includes (add_all xs ys) k ≡ (includes xs k || includes ys k)
includes-add_all xs [] k = sym (or-false_right (includes xs k))
  where
    or-false_right : (b : Bool) → (b || false) ≡ b
    or-false_right true = refl
    or-false_right false = refl
includes-add_all xs (y ∷ ys) k = includes-add_all (add xs y) ys k ∙ added (includes xs y) refl
  where
    included : includes xs y ≡ true → (y === k) ≡ true → includes xs k ≡ true
    included h e = subst (λ z. includes xs z ≡ true) (===→eq y k e) h

    added :
        (b : Bool)
        → includes xs y ≡ b
        → (includes (if b then xs else xs ++ y ∷ []) k || includes ys k)
          ≡ (includes xs k || (y === k || includes ys k))
    added true h = elim (Bool-cases (y === k)) [
      | inl e ↦ rw (e, included h e) refl
      | inr e ↦ rw e refl
    ]
    added false h =
        ap (λ b. b || includes ys k) (any-append (λ x. x === k) xs (y ∷ []))
        ∙ or-assoc (includes xs k) (y === k) (includes ys k)
      where
        or-assoc : (a b c : Bool) → ((a || (b || false)) || c) ≡ (a || (b || c))
        or-assoc true b c = refl
        or-assoc false true c = refl
        or-assoc false false c = refl

or-parts : (a b : Bool) → (a || b) ≡ false → (a ≡ false) × (b ≡ false)
or-parts true b h = absurd (cc)
or-parts false b h = (refl, h)

no_entity :
    {V : Type 0} (m n : List (Text × V)) (k : Text)
    → includes (all_ids m n) k ≡ false
    → (lookup k m ≡ none) × (lookup k n ≡ none)
no_entity m n k h =
    let both : (includes (keys m) k || includes (keys n) k) ≡ false =
      sym (includes-add_all [] (keys m ++ keys n) k ∙ any-append (λ x. x === k) (keys m) (keys n))
      ∙ h in
    let (left, right) = or-parts (includes (keys m) k) (includes (keys n) k) both in
    (lookup-keys m k left, lookup-keys n k right)

module _ {N : Type 0} (zero one : N) (entity_sides field_sides : List (Text × MergeSide))
    (changes : List (Text × List Text)) (default_side : MergeSide) where
  abbrev expected : Text → List (Text × Entity N) → List (Text × Entity N) → Option (ParsedEntity N)
  expected id bases incomings =
      merged_entity zero one entity_sides field_sides changes default_side id (lookup id bases)
        (lookup id incomings)

  abbrev or_else : Option (ParsedEntity N) → Option (ParsedEntity N) → Option (ParsedEntity N)
  or_else none d = d
  or_else (some e) d = some e

  lookup-put :
      (id j : Text) (e : Option (ParsedEntity N)) (out : List (Text × ParsedEntity N))
      → lookup j (put zero one entity_sides field_sides changes default_side id e out)
        ≡ (if id === j then or_else e (lookup j out) else lookup j out)
  lookup-put id j none out = elim (Bool-cases (id === j)) [ inl t ↦ rw t refl | inr f ↦ rw f refl ]
  lookup-put id j (some e) out = lookup-insert id j e out

  lookup-merge_ids :
      (bases incomings : List (Text × Entity N)) (ids : List Text)
      (out : List (Text × ParsedEntity N)) (j : Text)
      → lookup j
          (merge_ids zero one entity_sides field_sides changes default_side bases incomings ids out)
        ≡ (if includes ids j
            then or_else (expected j bases incomings) (lookup j out)
            else lookup j out)
  unfolding merge_ids
  lookup-merge_ids bases incomings [] out j = refl
  lookup-merge_ids bases incomings (id ∷ ids) out j =
      lookup-merge_ids bases incomings ids _ j ∙ (elim (Bool-cases (id === j)) [
        | inl t ↦ rw t (
            step (includes ids j) (
              lookup-put id j (expected id bases incomings) out
              ∙ rw t
                  (ap (λ k. or_else (expected k bases incomings) (lookup j out)) (===→eq id j t))))
        | inr f ↦ rw f (
            ap (λ o. if includes ids j then or_else (expected j bases incomings) o else o)
              (lookup-put id j (expected id bases incomings) out ∙ rw f refl))
      ])
    where
      twice : (e d : Option (ParsedEntity N)) → or_else e (or_else e d) ≡ or_else e d
      twice none d = refl
      twice (some e) d = refl

      step :
          {o : Option (ParsedEntity N)} (b : Bool)
          → o ≡ or_else (expected j bases incomings) (lookup j out)
          → (if b then or_else (expected j bases incomings) o else o)
            ≡ or_else (expected j bases incomings) (lookup j out)
      step true e =
          ap (or_else (expected j bases incomings)) e
          ∙ twice (expected j bases incomings) (lookup j out)
      step false e = e

  -- The merged scene, entity by entity.
  pub lookup-build_merged_entities :
      (base_entities incoming_entities : List (Entity N)) (id : Text)
      → lookup id (
          build_merged_entities zero one entity_sides field_sides changes default_side base_entities
            incoming_entities)
        ≡ expected id (entity_map base_entities) (entity_map incoming_entities)
  unfolding build_merged_entities
  lookup-build_merged_entities base_entities incoming_entities id =
      let bases = entity_map base_entities in
      let incomings = entity_map incoming_entities in
      lookup-merge_ids bases incomings (all_ids bases incomings) [] id
      ∙ (elim (Bool-cases (includes (all_ids bases incomings) id)) [
        | inl t ↦ rw t (or_else-none (expected id bases incomings))
        | inr f ↦
            let (no_base, no_incoming) = no_entity bases incomings id f in
            rw (f, no_base, no_incoming) (unfold lookup merged_entity in refl)
      ])
    where
      or_else-none : (e : Option (ParsedEntity N)) → or_else e none ≡ e
      or_else-none none = refl
      or_else-none (some e) = refl
