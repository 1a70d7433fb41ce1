-- ===== src/Codeowners/Requests/Safety.antt =====
-- codeowners-service.ts: what a run of applyCodeownersReviewers can do to the review requests.
use forge_hub.Base.{
  All, Bool, List, Moves, Moves->>, Moves->>=, Moves-at, Moves-fetch, Moves-pure, Text, [], refl,
  state_after, ◌∷◌,
}
use forge_hub.Codeowners.Requests.{
  CodeownersPull, CodeownersRepo, Owner, RequestRow, Requests, Setting, eligible_owners,
  load_codeowners, new_row, load_from, apply_codeowners_reviewers, owners_under,
}
use forge_hub.Codeowners.Requests.Additions.{
  Adds, Moves-load_from, Adds-trans, Adds-refl, Moves-request_all, Moves-select_owners,
}
use forge_hub.Codeowners.Requests.Automatic.{
  IsCalledFor, IsAutomatic, AreCalledFor, Yields-eligible_owners,
}
use forge_hub.Codeowners.{CodeownersRule, owners_for_paths, codeowners_paths}

IsAutomatic-new_row :
    (env : Setting) (repo : CodeownersRepo) (pr : CodeownersPull) (actor_id : Text)
    (owners : List Owner)
    → All (IsCalledFor env repo pr actor_id) owners
    → All (λ (o : Owner). IsAutomatic env repo pr actor_id (new_row pr actor_id o)) owners
IsAutomatic-new_row env repo pr actor_id [] h = tt
IsAutomatic-new_row env repo pr actor_id (o ∷ os) (h, hs) =
    ((o, refl, h), IsAutomatic-new_row env repo pr actor_id os hs)

Moves-eligible_owners :
    (P : RequestRow → Type 0) (env : Setting) (repo : CodeownersRepo) (pr : CodeownersPull)
    (actor_id : Text)
    → Moves (Adds P) (eligible_owners env repo pr actor_id)
unfolding eligible_owners load_codeowners
Moves-eligible_owners P env repo pr actor_id =
    Moves->> (Adds P) _ _ (Adds-trans P) (load codeowners_paths) under
  where
    load : (paths : List Text) → Moves (Adds P) (load_from env repo.storage_key pr.to_branch paths)
    load paths = Moves-load_from P env repo.storage_key pr.to_branch paths

    under : (rules : List CodeownersRule) → Moves (Adds P) (owners_under env repo pr actor_id rules)
    under [] = Moves-pure (Adds P) (Adds-refl P) []
    under (r ∷ rs) =
        Moves->> (Adds P) _ _ (Adds-trans P)
          (Moves-fetch (Adds P) (Adds-refl P)
            (λ (w : Requests). env.changed_files repo.storage_key pr.to_branch pr.from_branch))
          (λ files. Moves-select_owners P env repo pr actor_id (owners_for_paths (r ∷ rs) files))

-- Whichever calls throw, a run leaves every review request that is there as it is, fulfilled and
-- dismissed ones too, and adds only pending requests by the actor, marked as automatic, for pairs
-- without a request: of users who own a changed file by the rules of the branch that is merged into,
-- and who are the owner of the repository or a collaborator, but neither the author nor the actor.
pub apply_codeowners_reviewers-Adds :
    (env : Setting) (repo : CodeownersRepo) (pr : CodeownersPull) (actor_id : Text)
    (faults : List Bool) (w : Requests)
    → Adds
        (IsAutomatic env repo pr actor_id)
        w
        (state_after (apply_codeowners_reviewers env repo pr actor_id faults w))
apply_codeowners_reviewers-Adds env repo pr actor_id faults w = Moves-at _ _ run faults w
  where
    P : RequestRow → Type 0
    P = IsAutomatic env repo pr actor_id

    run : Moves (Adds P) (apply_codeowners_reviewers env repo pr actor_id)
    run =
        unfold apply_codeowners_reviewers in
        Moves->>= (Adds P) (AreCalledFor env repo pr actor_id) _ _ (Adds-trans P)
          (Moves-eligible_owners P env repo pr actor_id)
          (Yields-eligible_owners env repo pr actor_id)
          (λ owners h.
            Moves-request_all P pr actor_id owners []
              (IsAutomatic-new_row env repo pr actor_id owners h))
