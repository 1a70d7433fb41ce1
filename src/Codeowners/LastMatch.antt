-- ===== src/Codeowners/LastMatch.antt =====
-- codeowners.ts: the last rule that matches decides.
use forge_hub.Base.{
  Bool, Bool-cases, List, Option, Text, [], ap, false, find, if◌then◌else◌, inl, inr, none, refl,
  reverse, reverse-append, some, sym, true, ◌++◌, ◌∙◌, ◌∷◌, ◌≡◌,
}
use forge_hub.Codeowners.{CodeownersRule, last_owners, owners_for_path, normalize_path}
use forge_hub.Regex.{matches}

abbrev matches_path : Text → CodeownersRule → Bool
matches_path path rule = matches rule.match path

abbrev granted : CodeownersRule → List Text
granted rule = if rule.negated then [] else rule.owners

abbrev granted_or : List Text → Option CodeownersRule → List Text
granted_or owners none = owners
granted_or owners (some rule) = granted rule

find-append :
    {A : Type 0} (p : A → Bool) (xs : List A) (y : A)
    → find p (xs ++ y ∷ [])
      ≡ elim (find p xs) [ none ↦ if p y then some y else none | some x ↦ some x ]
find-append p [] y = refl
find-append p (x ∷ xs) y = elim (Bool-cases (p x)) [
  | inl t ↦ rw t refl
  | inr f ↦ rw f (find-append p xs y)
]

last_owners-find :
    (path : Text) (owners : List Text) (rules : List CodeownersRule)
    → last_owners path owners rules ≡ granted_or owners (find (matches_path path) (reverse rules))
unfolding last_owners
last_owners-find path owners [] = refl
last_owners-find path owners (r ∷ rs) =
    last_owners-find path (if matches r.match path then granted r else owners) rs
    ∙ sym (
        ap (λ l. granted_or owners (find (matches_path path) l)) (reverse-append (r ∷ []) rs)
        ∙ ap (granted_or owners) (find-append (matches_path path) (reverse rs) r)
        ∙ first (find (matches_path path) (reverse rs)) (matches r.match path))
  where
    first :
        (found : Option CodeownersRule) (b : Bool)
        → granted_or owners (elim found [ none ↦ if b then some r else none | some x ↦ some x ])
          ≡ granted_or (if b then granted r else owners) found
    first none true = refl
    first none false = refl
    first (some x) true = refl
    first (some x) false = refl

-- The owners of a path are those of the last rule that matches its normal form, the first one found
-- from the end of the rules. They are none if that rule is negated, whatever the rules before it say,
-- and if no rule matches.
pub owners_for_path-last :
    (rules : List CodeownersRule) (file_path : Text)
    → owners_for_path rules file_path
      ≡ elim (find
          (λ (r : CodeownersRule). matches r.match (normalize_path file_path))
          (reverse rules)) [ none ↦ [] | some rule ↦ if rule.negated then [] else rule.owners ]
unfolding owners_for_path
owners_for_path-last rules file_path =
    last_owners-find (normalize_path file_path) [] rules
    ∙ same (find (matches_path (normalize_path file_path)) (reverse rules))
  where
    same :
        (found : Option CodeownersRule)
        → granted_or [] found
          ≡ elim found [ none ↦ [] | some rule ↦ if rule.negated then [] else rule.owners ]
    same none = refl
    same (some rule) = refl
