-- ===== src/AutoMerge/Fire.antt =====
-- auto-merge.ts: the evaluation of an armed pull request, step by step, and the signal of a CI run.
use forge_hub.Base.{
  Act, Bool, List, Option, Ran, Text, [], catch, codes, done, fetch, filter, if◌then◌else◌,
  includes, inl, inr, lookup, none, not, pure, some, thrown, update, ◌&&◌, ◌++◌, ◌===◌, ◌>>◌, ◌∷◌,
  ◌⊎◌, ◌>>=◌, text-Eq,
}
use forge_hub.MergePolicy.{method-Eq}
use forge_hub.AutoMerge.FollowUps.{
  merged, conflict, nothing_to_merge, failed, PullMergeOutcome, is_open, PullMergeInput,
}
use forge_hub.AutoMerge.PullMerge.{execute_pull_merge}
use forge_hub.AutoMerge.Gate.{evaluate_auto_merge_gates}
use forge_hub.MergePolicy.{is_merge_method, repo_merge_policy, method_text}
use forge_hub.AutoMerge.{Env, PullRow, RepoRow, World, MergeMethod, UserRow, truthy, set_pull}
use forge_hub.Access.{can_write, is_some}
use forge_hub.Gates.Checks.{is_text}

pub data AutoMergeResult : Type 0 where
  fired : Text → AutoMergeResult
  not_fired : Text → AutoMergeResult

-- A pull request that is open and armed: its row, the method and the arming user.
pub record Armed : Type 0 where
  pub pr : PullRow
  pub method : MergeMethod
  pub armer : Text

abbrev pub arm : PullRow → Option MergeMethod → Option Text → Text ⊎ Armed
arm pr none by = inl (codes "not armed")
arm pr (some method) none = inl (codes "not armed")
arm pr (some method) (some armer) = inr (record { pr = pr; method = method; armer = armer })

-- The guards on the row: the reason why it is no candidate, or what is armed.
unfoldable pub armed_of : Option PullRow → Text ⊎ Armed
unfolding is_merge_method
armed_of none = inl (codes "not open")
armed_of (some pr) =
    if is_open pr.state
    then arm pr (is_merge_method pr.auto_merge_method) (truthy pr.auto_merge_by_id)
    else inl (codes "not open")

-- `outcome.status`, and the result.
unfoldable pub result_of : PullMergeOutcome → AutoMergeResult
result_of (merged sha) = fired sha
result_of conflict = not_fired (codes "conflict")
result_of nothing_to_merge = not_fired (codes "alreadyMerged")
result_of failed = not_fired (codes "error")

unfoldable pub merge_input : Armed → RepoRow → Text → PullMergeInput
merge_input a repo storage_key = record {
  repo_id = repo.id;
  storage_key = storage_key;
  delete_branch_on_merge = repo.delete_branch_on_merge;
  pull_id = a.pr.id;
  number = a.pr.number;
  title = a.pr.title;
  from_branch = a.pr.from_branch;
  to_branch = a.pr.to_branch;
  actor_id = a.armer;
  merge_method = a.method;
  commit_message = none;
}

abbrev joined : List Text → Text
joined [] = []
joined (r ∷ []) = r
joined (r ∷ q ∷ rs) = r ++ b';' ∷ b' ' ∷ joined (q ∷ rs)

-- The gates have been evaluated.
unfoldable pub fire_gated : Env → Armed → RepoRow → Text → List Text → Act World AutoMergeResult
unfolding execute_pull_merge merge_input result_of
fire_gated env a repo storage_key (reason ∷ reasons) = pure (not_fired (joined (reason ∷ reasons)))
fire_gated env a repo storage_key [] = do
  outcome ← execute_pull_merge env (merge_input a repo storage_key)
  pure (result_of outcome)

-- The arming user may write: the head and the gates.
unfoldable pub fire_permitted : Env → Armed → RepoRow → Text → Act World AutoMergeResult
unfolding evaluate_auto_merge_gates fire_gated
fire_permitted env a repo storage_key = do
  head_sha ←
      catch (fetch (λ w. env.git.resolve_branch_sha storage_key a.pr.from_branch)) (pure none)
  reasons ← evaluate_auto_merge_gates env a.pr repo.id head_sha
  fire_gated env a repo storage_key reasons

abbrev pub disarm : PullRow → PullRow
disarm p = record p { auto_merge_method = none; auto_merge_by_id = none }

-- The row of the arming user has been looked up.
unfoldable pub fire_known :
    Env → Armed → RepoRow → Text → Option UserRow → Act World AutoMergeResult
unfolding can_write fire_permitted
fire_known env a repo storage_key none = do
  update (set_pull a.pr.id disarm)
  pure (not_fired (codes "arming user no longer exists — auto-merge disarmed"))
fire_known env a repo storage_key (some user) =
    if can_write repo.access (some a.armer)
    then fire_permitted env a repo storage_key
    else pure (not_fired (codes "arming user no longer has write access"))

-- The policy, and the arming user's row.
unfoldable pub fire_stored : Env → Armed → RepoRow → Text → Act World AutoMergeResult
unfolding repo_merge_policy lookup fire_known
fire_stored env a repo storage_key =
    if includes
      (repo_merge_policy repo.allowed_merge_methods repo.default_merge_method).allowed_methods
      a.method
    then (do user ← fetch (λ w. lookup a.armer env.users); fire_known env a repo storage_key user)
    else pure (
        not_fired (
          codes "merge method '"
          ++ method_text a.method
          ++ codes "' is no longer allowed by the repository policy"))

abbrev pub storage_of : Option RepoRow → Option (RepoRow × Text)
storage_of none = none
storage_of (some repo) = elim (truthy repo.storage_key) [
  | none ↦ none
  | some key ↦ some (repo, key)
]

unfoldable pub fire_repo : Env → Armed → Option (RepoRow × Text) → Act World AutoMergeResult
unfolding fire_stored
fire_repo env a none = pure (not_fired (codes "no git storage"))
fire_repo env a (some (repo, storage_key)) = fire_stored env a repo storage_key

unfoldable pub fire_armed : Env → Text ⊎ Armed → Act World AutoMergeResult
unfolding lookup fire_repo
fire_armed env (inl reason) = pure (not_fired reason)
fire_armed env (inr a) = do
  repo ← fetch (λ w. lookup a.pr.repo_id env.repos)
  fire_repo env a (storage_of repo)

-- The body of the `try` block.
unfoldable pub evaluate_pr : Env → Text → Act World AutoMergeResult
unfolding lookup armed_of fire_armed
evaluate_pr env pull_id = do
  row ← fetch (λ w. lookup pull_id w.pulls)
  fire_armed env (armed_of row)

abbrev pub leave : Text → World → World
leave pull_id w = record w { in_flight = filter (λ i. not (i === pull_id)) w.in_flight }

abbrev pub enter : Text → World → World
enter pull_id w = record w { in_flight = w.in_flight ++ pull_id ∷ [] }

-- `try { ... } finally { inFlight.delete(prId) }`
abbrev pub after_leave : {A : Type 0} → Text → Ran World A → Ran World A
after_leave pull_id (done a faults w) = done a faults (leave pull_id w)
after_leave pull_id (thrown faults w) = thrown faults (leave pull_id w)

unfoldable pub maybe_auto_merge_pr : Env → Text → Act World AutoMergeResult
unfolding evaluate_pr
maybe_auto_merge_pr env pull_id faults w =
    if includes w.in_flight pull_id
    then done (not_fired (codes "already evaluating")) faults w
    else after_leave pull_id (evaluate_pr env pull_id faults (enter pull_id w))

-- The loop over the armed pull requests of `maybeAutoMergeForCommit`.
unfoldable pub merge_heads : Env → Text → Text → List (Text × PullRow) → Act World (Unit {0})
unfolding maybe_auto_merge_pr
merge_heads env storage_key commit_sha [] = pure tt
merge_heads env storage_key commit_sha ((id, p) ∷ armed) =
    let rest = merge_heads env storage_key commit_sha armed in
    do
      head_sha ←
          catch (fetch (λ w. env.git.resolve_branch_sha storage_key p.from_branch)) (pure none)
      if is_text head_sha commit_sha then (maybe_auto_merge_pr env id >> pure tt) else pure tt
      rest

abbrev is_candidate : Text → Text × PullRow → Bool
is_candidate repo_id (id, p) =
    p.repo_id === repo_id && is_open p.state && is_some p.auto_merge_method

abbrev merge_candidates : Env → Text → Text → List (Text × PullRow) → Act World (Unit {0})
unfolding lookup merge_heads
merge_candidates env repo_id commit_sha [] = pure tt
merge_candidates env repo_id commit_sha (p ∷ armed) = do
  repo ← fetch (λ w. lookup repo_id env.repos)
  elim (storage_of repo) [
    | none ↦ pure tt
    | some (row, storage_key) ↦ merge_heads env storage_key commit_sha (p ∷ armed)
  ]

-- The signal of a green CI run at a commit.
unfoldable pub maybe_auto_merge_for_commit : Env → Text → Text → Act World (Unit {0})
unfolding merge_candidates
maybe_auto_merge_for_commit env repo_id commit_sha = do
  armed ← fetch (λ w. filter (is_candidate repo_id) w.pulls)
  merge_candidates env repo_id commit_sha armed
