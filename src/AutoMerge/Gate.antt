-- ===== src/AutoMerge/Gate.antt =====
-- auto-merge.ts: the gates of an armed pull request.
use forge_hub.Base.{
  Act, Bool, List, Option, Text, [], codes, fetch, filter, find, if◌then◌else◌, ltb, none, pure,
  show, some, ℕ, ◌&&◌, ◌++◌, ◌===◌, ◌==◌, ◌||◌, ◌∷◌, ◌>>=◌, text-Eq,
}
use forge_hub.AutoMerge.{PullRow, Env, World, RunRow, ProtectedBranch, truthy, CheckLike}
use forge_hub.Gates.Checks.{CheckSummary, summarize_check_runs}
use forge_hub.Gates.Protection.{evaluate_merge_protection, ProtectionMergeStatus}
use forge_hub.Gates.Reviews.{compute_review_summary, ReviewSummary}
use forge_hub.AutoMerge.FollowUps.{is_rule_of}

abbrev flat_checks : List RunRow → List CheckLike
flat_checks [] = []
flat_checks (r ∷ rs) = r.check_runs ++ flat_checks rs

-- No runs at all is no summary.
abbrev summary_of : List RunRow → Option CheckSummary
unfolding summarize_check_runs
summary_of [] = none
summary_of (r ∷ rs) = some (summarize_check_runs (flat_checks (r ∷ rs)))

abbrev is_run_of : Text → Text → RunRow → Bool
is_run_of repo_id sha r = r.repo_id === repo_id && r.commit_sha === sha

unfoldable pub commit_summary : Env → Text → Text → Option CheckSummary
unfolding summary_of
commit_summary env repo_id sha = summary_of (filter (is_run_of repo_id sha) env.runs)

unfoldable pub check_summary_for_commit : Env → Text → Text → Act World (Option CheckSummary)
unfolding commit_summary
check_summary_for_commit env repo_id sha = fetch (λ w. commit_summary env repo_id sha)

unfoldable pub summary_at : Env → Text → Option Text → Act World (Option CheckSummary)
unfolding check_summary_for_commit
summary_at env repo_id none = pure none
summary_at env repo_id (some sha) = check_summary_for_commit env repo_id sha

-- `headSha ? await checkSummaryForCommit(...) : null`
unfoldable pub head_summary : Env → Text → Option Text → Act World (Option CheckSummary)
unfolding summary_at
head_summary env repo_id head_sha = summary_at env repo_id (truthy head_sha)

-- The reviews and the comments are two queries.
unfoldable pub review_summary : Env → Text → Option Text → Act World ReviewSummary
unfolding compute_review_summary
review_summary env pull_id head_sha = do
  reviews ← fetch (λ w. env.reviews)
  comments ← fetch (λ w. env.comments)
  pure (compute_review_summary reviews comments pull_id head_sha)

unfoldable pub draft_reasons : Bool → List Text
draft_reasons is_draft = if is_draft then codes "pull request is a draft" ∷ [] else []

unfoldable pub review_reasons : ℕ → List Text
unfolding show
review_reasons n =
    if ltb 0 n
    then (show n ++ codes " active change request" ++ (if n == 1 then [] else codes "s")) ∷ []
    else []

unfoldable pub check_reasons : Option CheckSummary → List Text
unfolding show
check_reasons none = []
check_reasons (some c) =
    if ltb 0 c.failing || ltb 0 c.pending
    then (codes "checks not green ("
        ++ show c.failing
        ++ codes " failing, "
        ++ show c.pending
        ++ codes " pending)")
      ∷ []
    else []

unfoldable pub status_reasons : ProtectionMergeStatus → List Text
status_reasons status = elim (truthy status.reason) [
  | none ↦ []
  | some reason ↦ if status.blocked then reason ∷ [] else []
]

-- A rule that asks for approvals or for green checks is evaluated.
unfoldable pub protection_reasons :
    Option ProtectedBranch → Text → ReviewSummary → Option CheckSummary → List Text
unfolding evaluate_merge_protection status_reasons
protection_reasons none branch review checks = []
protection_reasons (some p) branch review checks =
    if ltb 0 p.rule.required_approvals || p.rule.require_green_checks
    then status_reasons (
        evaluate_merge_protection p.rule branch
          (record { approvals = review.approvals; changes_requested = review.changes_requested })
          (if p.rule.require_green_checks then checks else none))
    else []

-- All reasons, in the order in which they are pushed.
unfoldable pub gate_reasons :
    PullRow → ReviewSummary → Option CheckSummary → Option ProtectedBranch → List Text
unfolding draft_reasons review_reasons check_reasons protection_reasons
gate_reasons pr review checks rule =
    draft_reasons pr.is_draft
    ++ review_reasons review.changes_requested
    ++ check_reasons checks
    ++ protection_reasons rule pr.to_branch review checks

unfoldable pub evaluate_auto_merge_gates :
    Env → PullRow → Text → Option Text → Act World (List Text)
unfolding review_summary head_summary gate_reasons
evaluate_auto_merge_gates env pr repo_id head_sha = do
  review ← review_summary env pr.id head_sha
  checks ← head_summary env repo_id head_sha
  rule ← fetch (λ w. find (is_rule_of repo_id pr.to_branch) env.protected_branches)
  pure (gate_reasons pr review checks rule)
