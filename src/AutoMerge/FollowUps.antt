-- ===== src/AutoMerge/FollowUps.antt =====
-- pull-merge.ts: the input and the outcome of a merge, the deletion of the head branch, and the
-- closing of issues by closeIssuesForMergedPull of references-service.ts.
use forge_hub.Base.{
  Act, Bool, List, Option, Text, [], any, catch, codes, false, fetch, filter, get_or, if◌then◌else◌,
  lookup, not, pure, true, update, ℕ, ◌&&◌, ◌===◌, ◌>>◌, ◌||◌, ◌∷◌, ◌>>=◌, text-Eq,
}
use forge_hub.AutoMerge.{
  merged_pull, open_pull, closed_pull, timeline_event, deleted_branch, MergeMethod, PullRow,
  ProtectedBranch, record_event, Env, PullState, World, log, adjust, ClosingRef,
}

pub record PullMergeInput : Type 0 where
  pub repo_id : Text
  pub storage_key : Text
  pub delete_branch_on_merge : Bool
  pub pull_id : Text
  pub number : ℕ
  pub title : Text
  pub from_branch : Text
  pub to_branch : Text
  pub actor_id : Text
  pub merge_method : MergeMethod
  pub commit_message : Option Text

pub data PullMergeOutcome : Type 0 where
  merged : Text → PullMergeOutcome
  conflict : PullMergeOutcome
  nothing_to_merge : PullMergeOutcome
  failed : PullMergeOutcome

abbrev pub is_open : PullState → Bool
is_open open_pull = true
is_open closed_pull = false
is_open merged_pull = false

-- The `where` clauses: another open pull request that uses the branch, and the branch's rule.
abbrev is_open_use : Text → Text → Text → Text × PullRow → Bool
is_open_use repo_id pull_id branch (id, p) =
    p.repo_id === repo_id
    && is_open p.state
    && not (id === pull_id)
    && (p.from_branch === branch || p.to_branch === branch)

abbrev pub is_rule_of : Text → Text → ProtectedBranch → Bool
is_rule_of repo_id branch r = r.repo_id === repo_id && r.branch === branch

unfoldable pub delete_head_branch : Env → PullMergeInput → Act World Bool
unfolding record_event
delete_head_branch env input = do
  update (log (deleted_branch input.from_branch))
  record_event env input.number (codes "head_ref_deleted") input.actor_id
  pure true

unfoldable pub delete_unless_used : Env → PullMergeInput → Act World Bool
unfolding delete_head_branch
delete_unless_used env input = do
  protected ← fetch (λ w. any (is_rule_of input.repo_id input.from_branch) env.protected_branches)
  still_used ← fetch (λ w. any (is_open_use input.repo_id input.pull_id input.from_branch) w.pulls)
  if protected || still_used then pure false else delete_head_branch env input

unfoldable pub delete_merged_head_branch : Env → PullMergeInput → Act World Bool
unfolding delete_unless_used
delete_merged_head_branch env input = do
  default ← fetch (λ w. env.git.default_branch input.storage_key)
  if input.from_branch === default then pure false else delete_unless_used env input

-- The body of the loop, on an open issue.
unfoldable pub close_issue : ℕ → Text → ClosingRef → Act World (Unit {0})
unfolding adjust
close_issue pull_number actor_id ref = do
  update (λ w. record w { open_issues = adjust ref.target_id (λ _. false) w.open_issues })
  update (log (timeline_event ref.target_number (codes "closed") actor_id))

-- The loop over the closing references.
unfoldable pub close_refs : ℕ → Text → List ClosingRef → Act World (Unit {0})
unfolding lookup close_issue
close_refs pull_number actor_id [] = pure tt
close_refs pull_number actor_id (ref ∷ refs) =
    let rest = close_refs pull_number actor_id refs in
    do
      is_open_issue ← fetch (λ w. get_or (lookup ref.target_id w.open_issues) false)
      if is_open_issue then close_issue pull_number actor_id ref else pure tt
      rest

unfoldable pub close_all : Env → PullMergeInput → List ClosingRef → Act World (Unit {0})
unfolding close_refs lookup
close_all env input [] = pure tt
close_all env input (ref ∷ refs) = do
  handle_row ← fetch (λ w. lookup input.actor_id env.users)
  close_refs input.number input.actor_id (ref ∷ refs)

unfoldable pub close_issues_for_merged_pull : Env → PullMergeInput → Act World (Unit {0})
unfolding close_all
close_issues_for_merged_pull env input = do
  closing ← fetch (λ w. filter (λ (r : ClosingRef). r.source_id === input.pull_id) env.closing_refs)
  close_all env input closing

unfoldable pub delete_quietly : Env → PullMergeInput → Act World (Unit {0})
unfolding delete_merged_head_branch
delete_quietly env input = catch (delete_merged_head_branch env input >> pure tt) (pure tt)
