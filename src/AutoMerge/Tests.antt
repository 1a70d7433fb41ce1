-- ===== src/AutoMerge/Tests.antt =====
-- auto-merge.ts: an armed pull request, evaluated with green and with failing checks.
use forge_hub.Base.{
  Bool, List, Option, Text, [], codes, done, false, includes, none, refl, some, state_after, true,
  ◌∷◌, ◌≡◌, text-Eq,
}
use forge_hub.AutoMerge.{
  open_pull, merged_at, RepoRow, PullRow, Git, RunRow, World, Env, PullRange, adjust,
}
use forge_hub.Access.{public, RepoAccessInput}
use forge_hub.AutoMerge.Fire.{maybe_auto_merge_pr, fired, not_fired}
use forge_hub.AutoMerge.Ready.{Ready, maybe_auto_merge_pr-fired}
use forge_hub.AutoMerge.Guard.{maybe_auto_merge_pr-guard}
use forge_hub.AutoMerge.PullMerge.{mark_merged}

abbrev user_id : Text
user_id = codes "u"

abbrev access : RepoAccessInput
access = record {
  visibility = public;
  owner_id = user_id;
  archived_at = none;
  collaborators = [];
  org_id = none;
  org = none;
  team_access = none;
}

abbrev repo : RepoRow
repo = record {
  id = codes "r";
  storage_key = some (codes "k");
  allowed_merge_methods = some (codes "squash,rebase");
  default_merge_method = none;
  delete_branch_on_merge = true;
  access = access;
}

abbrev pull : PullRow
pull = record {
  id = codes "p";
  repo_id = codes "r";
  number = 7;
  title = codes "T";
  state = open_pull;
  from_branch = codes "f";
  to_branch = codes "main";
  is_draft = false;
  auto_merge_method = some (codes "rebase");
  auto_merge_by_id = some user_id;
  merge_method = none;
  merge_commit_sha = none;
  base_sha = none;
  head_sha = none;
}

abbrev git : Git
git = record {
  resolve_branch_sha = λ key branch. some (codes "h");
  live_range = λ key to from. none;
  merge_base_subjects = λ key to from. [];
  default_branch = λ key. codes "main";
  perform_merge = λ key from to message. merged_at (codes "m");
  perform_squash_merge = λ key from to message author. merged_at (codes "m");
  perform_rebase_merge = λ key from to. merged_at (codes "m");
}

-- One run at the head, which has failed.
abbrev failed_run : RunRow
failed_run = record {
  repo_id = codes "r";
  commit_sha = codes "h";
  check_runs = record { status = codes "completed"; conclusion = some (codes "failure") } ∷ [];
}

abbrev env_of : List RunRow → Env
env_of runs = record {
  repos = (codes "r", repo) ∷ [];
  users = (user_id, record { handle = codes "ada"; display_name = none; email = none }) ∷ [];
  reviews = [];
  comments = [];
  runs = runs;
  protected_branches = [];
  closing_refs = [];
  git = git;
}

abbrev world : World
world = record { pulls = (codes "p", pull) ∷ []; open_issues = []; in_flight = []; effects = [] }

-- With no run at all the pull request is merged.
abbrev merged_world : World
merged_world = state_after (maybe_auto_merge_pr (env_of []) (codes "p") [] world)

maybe_auto_merge_pr-green :
    maybe_auto_merge_pr (env_of []) (codes "p") [] world ≡ done (fired (codes "m")) [] merged_world
unfolding maybe_auto_merge_pr
maybe_auto_merge_pr-green = refl

-- A failed run holds it back.
maybe_auto_merge_pr-red :
    maybe_auto_merge_pr (env_of (failed_run ∷ [])) (codes "p") [] world
    ≡ done (not_fired (codes "checks not green (1 failing, 0 pending)")) [] world
unfolding maybe_auto_merge_pr
maybe_auto_merge_pr-red = refl

-- The read of the head throws: the checks of the head are not looked at, and the pull request is
-- merged although its run has failed.
abbrev head_throws : List Bool
head_throws = false ∷ false ∷ false ∷ true ∷ []

abbrev world_after_throw : World
world_after_throw =
    state_after (maybe_auto_merge_pr (env_of (failed_run ∷ [])) (codes "p") head_throws world)

maybe_auto_merge_pr-head_throws :
    maybe_auto_merge_pr (env_of (failed_run ∷ [])) (codes "p") head_throws world
    ≡ done (fired (codes "m")) [] world_after_throw
unfolding maybe_auto_merge_pr
maybe_auto_merge_pr-head_throws = refl

maybe_auto_merge_pr-fired_example :
    (includes world.in_flight (codes "p") ≡ false)
    × (r : Ready (env_of (failed_run ∷ [])) world (codes "p")) × (range : Option PullRange)
    × (world_after_throw.pulls
        ≡ adjust r.armed.pr.id (mark_merged r.armed.method (codes "m") range) world.pulls)
maybe_auto_merge_pr-fired_example =
    maybe_auto_merge_pr-fired (env_of (failed_run ∷ [])) (codes "p") head_throws [] world
      world_after_throw (codes "m") maybe_auto_merge_pr-head_throws

maybe_auto_merge_pr-guard_example :
    ((state_after (maybe_auto_merge_pr (env_of []) (codes "p") (true ∷ []) world)).in_flight
      ≡ world.in_flight)
    × (includes world.in_flight (codes "p") ≡ true
        → state_after (maybe_auto_merge_pr (env_of []) (codes "p") (true ∷ []) world) ≡ world)
maybe_auto_merge_pr-guard_example =
    maybe_auto_merge_pr-guard (env_of []) (codes "p") (true ∷ []) world
