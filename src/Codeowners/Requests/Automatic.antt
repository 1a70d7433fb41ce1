-- ===== src/Codeowners/Requests/Automatic.antt =====
-- codeowners-service.ts: whom a review is requested from.
use forge_hub.Base.{
  Act, All, Bool, Bool-cases, In, In-filter, List, Option, Text, Yields, Yields->>=-from,
  Yields-fetch, Yields-pure, [], and-true, ap₂, false, fetch, filter, includes, includes_iff, inl,
  inr, none, not, refl, some, subst, sym, text_eq_iff, true, ◌===◌, ◌∷◌, ◌≡◌, ◌≢◌, text-Eq,
}
use forge_hub.Codeowners.{CodeownersRule, parse_codeowners, owners_for_paths, codeowners_paths}
use forge_hub.Codeowners.Requests.{
  CodeownersPull, CodeownersRepo, Owner, RequestRow, Requests, Setting, load_from, parsed_or,
  is_eligible, select_owners, owners_under, eligible_owners, load_codeowners,
}

abbrev rules_or : Setting → List CodeownersRule → Option Text → List CodeownersRule
rules_or env rest none = rest
rules_or env rest (some text) = parse_codeowners env.escaped text

-- The rules of the first of the paths at which there is a file.
abbrev pub rules_in : Setting → Text → Text → List Text → List CodeownersRule
rules_in env storage_key ref [] = []
rules_in env storage_key ref (path ∷ paths) =
    rules_or env (rules_in env storage_key ref paths) (env.read_file storage_key ref path)

module _ (env : Setting) (repo : CodeownersRepo) (pr : CodeownersPull) (actor_id : Text) where
  -- The owners of the changed files, by the rules of the branch that the pull request is merged into.
  abbrev pub owning_handles : List Text
  owning_handles =
      owners_for_paths (rules_in env repo.storage_key pr.to_branch codeowners_paths)
        (env.changed_files repo.storage_key pr.to_branch pr.from_branch)

  -- A user who owns a changed file, and is the owner of the repository or a collaborator, but neither
  -- the author nor the one who acts.
  abbrev pub IsCalledFor : Owner → Type 0
  IsCalledFor o =
      In o env.users
      × (includes owning_handles o.handle ≡ true)
      × (o.id ≢ pr.author_id)
      × (o.id ≢ actor_id)
      × In o.id (repo.owner_id ∷ repo.collaborators)

  -- A pending request by the actor, marked as one that comes from the owners' file.
  abbrev pub IsAutomatic : RequestRow → Type 0
  IsAutomatic row =
      (o : Owner) × (row ≡ record {
        pull_request_id = pr.id;
        user_id = o.id;
        requested_by_id = actor_id;
        fulfilled = false;
        dismissed = false;
        via_codeowners = true;
      })
      × IsCalledFor o

Yields-parsed_or :
    (env : Setting) (rest : Act Requests (List CodeownersRule)) (rules : List CodeownersRule)
    (raw : Option Text)
    → Yields (λ rs. rs ≡ rules) rest
    → Yields (λ rs. rs ≡ rules_or env rules raw) (parsed_or env rest raw)
Yields-parsed_or env rest rules none h = h
Yields-parsed_or env rest rules (some text) h = Yields-pure Requests _ _ refl

Yields-load_from :
    (env : Setting) (storage_key ref : Text) (paths : List Text)
    → Yields
        (λ rules. rules ≡ rules_in env storage_key ref paths)
        (load_from env storage_key ref paths)
unfolding load_from
Yields-load_from env storage_key ref [] = Yields-pure Requests _ [] refl
Yields-load_from env storage_key ref (path ∷ paths) =
    Yields->>=-from _ (λ rules. rules ≡ rules_in env storage_key ref (path ∷ paths))
      (fetch (λ (w : Requests). env.read_file storage_key ref path)) _ (Yields-fetch _)
      (λ raw (s, found).
        subst
          (λ o.
            Yields (λ rs. rs ≡ rules_or env (rules_in env storage_key ref paths) o)
              (parsed_or env (load_from env storage_key ref paths) raw))
          (sym found) (Yields-parsed_or env _ _ raw (Yields-load_from env storage_key ref paths)))

All-filter :
    {A : Type 0} (P : A → Type 0) (p : A → Bool) (xs : List A)
    → ((x : A) → In x xs → p x ≡ true → P x)
    → All P (filter p xs)
All-filter P p [] h = tt
All-filter P p (x ∷ xs) h = elim (Bool-cases (p x)) [
  | inl t ↦ rw t (h x (inl refl) t, All-filter P p xs (λ y i e. h y (inr i) e))
  | inr f ↦ rw f (All-filter P p xs (λ y i e. h y (inr i) e))
]

ne_of_test : (a b : Text) → not (a === b) ≡ true → a ≢ b
ne_of_test a b h e = elim (Bool-cases (a === b)) [
  | inl t ↦ cc (rw t at h)
  | inr f ↦ cc (f, (text_eq_iff a b).1 e)
]

module _ (env : Setting) (repo : CodeownersRepo) (pr : CodeownersPull) (actor_id : Text) where
  called_for :
      (o : Owner)
      → In o env.users
      → includes (owning_handles env repo pr actor_id) o.handle ≡ true
      → is_eligible repo pr actor_id o ≡ true
      → IsCalledFor env repo pr actor_id o
  called_for o known owns h =
      let (others, member) = and-true _ _ h in
      let (not_author, not_actor) = and-true _ _ others in
      (
        known,
        owns,
        ne_of_test o.id pr.author_id not_author,
        ne_of_test o.id actor_id not_actor,
        (includes_iff (repo.owner_id ∷ repo.collaborators) o.id).0 member,
      )

  abbrev pub AreCalledFor : List Owner → Type 0
  AreCalledFor owners = All (IsCalledFor env repo pr actor_id) owners

  Yields-select_owners :
      (handles : List Text)
      → handles ≡ owning_handles env repo pr actor_id
      → Yields AreCalledFor (select_owners env repo pr actor_id handles)
  Yields-select_owners [] e = Yields-pure Requests AreCalledFor [] tt
  Yields-select_owners (h ∷ hs) e =
      Yields->>=-from _ AreCalledFor
        (fetch (λ (w : Requests). filter (λ (u : Owner). includes (h ∷ hs) u.handle) env.users)) _
        (Yields-fetch _)
        (λ users (s, same). Yields-pure Requests AreCalledFor _ (
          All-filter _ (is_eligible repo pr actor_id) users (λ o i t.
            let (known, owns) =
              In-filter (λ (u : Owner). includes (h ∷ hs) u.handle) env.users o
                (subst (In o) (sym same) i) in
            called_for o known (subst (λ l. includes l o.handle ≡ true) e owns) t)))

  Yields-owners_under :
      (rules : List CodeownersRule)
      → rules ≡ rules_in env repo.storage_key pr.to_branch codeowners_paths
      → Yields AreCalledFor (owners_under env repo pr actor_id rules)
  Yields-owners_under [] e = Yields-pure Requests AreCalledFor [] tt
  Yields-owners_under (r ∷ rs) e =
      Yields->>=-from _ AreCalledFor
        (fetch (λ (w : Requests). env.changed_files repo.storage_key pr.to_branch pr.from_branch)) _
        (Yields-fetch _)
        (λ files (s, same).
          Yields-select_owners (owners_for_paths (r ∷ rs) files)
            (ap₂ owners_for_paths e (sym same)))

  pub Yields-eligible_owners : Yields AreCalledFor (eligible_owners env repo pr actor_id)
  unfolding eligible_owners load_codeowners
  Yields-eligible_owners =
      Yields->>=-from _ AreCalledFor (load_from env repo.storage_key pr.to_branch codeowners_paths)
        _ (Yields-load_from env repo.storage_key pr.to_branch codeowners_paths) Yields-owners_under
