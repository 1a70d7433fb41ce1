-- ===== src/AutoMerge/Guard.antt =====
-- auto-merge.ts: the set `inFlight` is left as it was found, whichever calls throw.
use forge_hub.Base.{
  ===-self, Act, Bool, Bool-cases, Keeps, Keeps->>=, Keeps-catch, Keeps-fetch, Keeps-if, Keeps-pure,
  Keeps-update, List, Option, Ran, Text, [], ap, arith, done, false, filter, includes, inl, inr,
  none, not, refl, some, state_after, thrown, true, ◌++◌, ◌===◌, ◌∙◌, ◌∷◌, ◌≡◌, ◌⊎◌, text-Eq,
}
use forge_hub.MergePolicy.{method-Eq}
use forge_hub.AutoMerge.{
  merged_at, already_merged, conflicts, World, Env, PullRange, RepoRow, MergeResult, UserRow,
  PullRow, truthy,
}
use forge_hub.AutoMerge.Fire.{
  fire_gated, fire_known, fire_armed, fire_repo, evaluate_pr, maybe_auto_merge_pr, fire_permitted,
  fire_stored, Armed, armed_of, merge_input, result_of, storage_of, after_leave, enter,
}
use forge_hub.AutoMerge.FollowUps.{PullMergeInput}
use forge_hub.AutoMerge.PullMerge.{execute_pull_merge, finish, after_merge}
use forge_hub.AutoMerge.Gate.{
  evaluate_auto_merge_gates, summary_at, review_summary, check_summary_for_commit, head_summary,
}
use forge_hub.Access.{can_write}
use forge_hub.AutoMerge.Runs.{Keeps-after_update, Keeps-run_merge}

abbrev flights : World → List Text
flights w = w.in_flight

Keeps-finish :
    (env : Env) (input : PullMergeInput) (before_sha : Option Text) (range : Option PullRange)
    (result : Option MergeResult)
    → Keeps flights (finish env input before_sha range result)
unfolding finish after_merge
Keeps-finish env input before_sha range none = Keeps-pure flights _
Keeps-finish env input before_sha range (some already_merged) = Keeps-pure flights _
Keeps-finish env input before_sha range (some conflicts) = Keeps-pure flights _
Keeps-finish env input before_sha range (some (merged_at sha)) =
    Keeps->>= flights _ _ (Keeps-update flights _ (λ w. refl))
      (λ a. Keeps-after_update flights (λ e w. refl) (λ l w. refl) env input before_sha sha)

Keeps-execute_pull_merge :
    (env : Env) (input : PullMergeInput) → Keeps flights (execute_pull_merge env input)
unfolding execute_pull_merge
Keeps-execute_pull_merge env input = Keeps->>= flights _ _ (Keeps-fetch flights _) (λ before_sha.
    Keeps->>= flights _ _
      (Keeps-catch flights _ _
        (Keeps->>= flights _ _
          (Keeps-run_merge flights (λ e w. refl) (λ l w. refl) env input input.merge_method)
          (λ r. Keeps-pure flights (some r)))
        (Keeps-pure flights _))
      (λ result. Keeps-finish env input before_sha _ result))

Keeps-summary_at :
    (env : Env) (repo_id : Text) (sha : Option Text) → Keeps flights (summary_at env repo_id sha)
unfolding summary_at check_summary_for_commit
Keeps-summary_at env repo_id none = Keeps-pure flights _
Keeps-summary_at env repo_id (some sha) = Keeps-fetch flights _

Keeps-gates :
    (env : Env) (pr : PullRow) (repo_id : Text) (head_sha : Option Text)
    → Keeps flights (evaluate_auto_merge_gates env pr repo_id head_sha)
unfolding evaluate_auto_merge_gates review_summary head_summary
Keeps-gates env pr repo_id head_sha =
    Keeps->>= flights _ _
      (Keeps->>= flights _ _ (Keeps-fetch flights _) (λ reviews.
        Keeps->>= flights _ _ (Keeps-fetch flights _) (λ comments. Keeps-pure flights _)))
      (λ review.
        Keeps->>= flights _ _ (Keeps-summary_at env repo_id (truthy head_sha))
          (λ checks. Keeps->>= flights _ _ (Keeps-fetch flights _) (λ rule. Keeps-pure flights _)))

Keeps-fire_gated :
    (env : Env) (a : Armed) (repo : RepoRow) (key : Text) (reasons : List Text)
    → Keeps flights (fire_gated env a repo key reasons)
unfolding fire_gated
Keeps-fire_gated env a repo key (r ∷ rs) = Keeps-pure flights _
Keeps-fire_gated env a repo key [] =
    Keeps->>= flights _ _ (Keeps-execute_pull_merge env (merge_input a repo key))
      (λ outcome. Keeps-pure flights (result_of outcome))

Keeps-fire_known :
    (env : Env) (a : Armed) (repo : RepoRow) (key : Text) (user : Option UserRow)
    → Keeps flights (fire_known env a repo key user)
unfolding fire_known fire_permitted
Keeps-fire_known env a repo key none =
    Keeps->>= flights _ _ (Keeps-update flights _ (λ w. refl)) (λ b. Keeps-pure flights _)
Keeps-fire_known env a repo key (some user) =
    Keeps-if flights (can_write repo.access (some a.armer)) _ _
      (Keeps->>= flights _ _
        (Keeps-catch flights _ _ (Keeps-fetch flights _) (Keeps-pure flights _))
        (λ head_sha.
          Keeps->>= flights _ _ (Keeps-gates env a.pr repo.id head_sha)
            (λ reasons. Keeps-fire_gated env a repo key reasons)))
      (Keeps-pure flights _)

Keeps-fire_repo :
    (env : Env) (a : Armed) (stored : Option (RepoRow × Text))
    → Keeps flights (fire_repo env a stored)
unfolding fire_repo fire_stored
Keeps-fire_repo env a none = Keeps-pure flights _
Keeps-fire_repo env a (some (repo, key)) =
    Keeps-if flights _ _ _
      (Keeps->>= flights _ _ (Keeps-fetch flights _) (λ user. Keeps-fire_known env a repo key user))
      (Keeps-pure flights _)

Keeps-fire_armed : (env : Env) (candidate : Text ⊎ Armed) → Keeps flights (fire_armed env candidate)
unfolding fire_armed
Keeps-fire_armed env (inl reason) = Keeps-pure flights _
Keeps-fire_armed env (inr a) =
    Keeps->>= flights _ _ (Keeps-fetch flights _) (λ repo. Keeps-fire_repo env a (storage_of repo))

Keeps-evaluate_pr : (env : Env) (pull_id : Text) → Keeps flights (evaluate_pr env pull_id)
unfolding evaluate_pr
Keeps-evaluate_pr env pull_id =
    Keeps->>= flights _ _ (Keeps-fetch flights _) (λ row. Keeps-fire_armed env (armed_of row))

filter-fresh :
    (l : List Text) (id : Text)
    → includes l id ≡ false
    → filter (λ (i : Text). not (i === id)) (l ++ id ∷ []) ≡ l
filter-fresh [] id h = rw (===-self id) refl
filter-fresh (i ∷ l) id h = ground (arith, filter-fresh l id)

Keeps-at :
    {A : Type 0} (m : Act World A)
    → Keeps flights m
    → (faults : List Bool) (w : World) → (state_after (m faults w)).in_flight ≡ w.in_flight
unfolding Keeps
Keeps-at m h = h

in_flight-after_leave :
    {A : Type 0} (id : Text) (w : World)
    → includes w.in_flight id ≡ false
    → (r : Ran World A) → (state_after r).in_flight ≡ w.in_flight ++ id ∷ []
    → (state_after (after_leave id r)).in_flight ≡ w.in_flight
in_flight-after_leave id w fresh (done a fs u) e =
    ap (filter (λ (i : Text). not (i === id))) e ∙ filter-fresh w.in_flight id fresh
in_flight-after_leave id w fresh (thrown fs u) e =
    ap (filter (λ (i : Text). not (i === id))) e ∙ filter-fresh w.in_flight id fresh

-- Whether the evaluation of a pull request fires, does not fire or throws, the set of pull requests
-- being evaluated is afterwards what it was before; and one that is being evaluated already is not
-- evaluated again, and nothing changes.
pub maybe_auto_merge_pr-guard :
    (env : Env) (pull_id : Text) (faults : List Bool) (w : World)
    → ((state_after (maybe_auto_merge_pr env pull_id faults w)).in_flight ≡ w.in_flight)
      × (includes w.in_flight pull_id ≡ true
          → state_after (maybe_auto_merge_pr env pull_id faults w) ≡ w)
unfolding maybe_auto_merge_pr
maybe_auto_merge_pr-guard env pull_id faults w = elim (Bool-cases (includes w.in_flight pull_id)) [
  | inl e ↦ rw e (refl, λ _. refl)
  | inr e ↦ rw e (
    in_flight-after_leave pull_id w e (evaluate_pr env pull_id faults (enter pull_id w)) (
        Keeps-at (evaluate_pr env pull_id) (Keeps-evaluate_pr env pull_id) faults
          (enter pull_id w)),
    λ h. absurd (cc),
  )
]
