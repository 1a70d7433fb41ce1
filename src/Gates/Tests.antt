-- ===== src/Gates/Tests.antt =====
-- The gates on a pull request with an old change request and a failing check.
use forge_hub.Base.{
  List, Text, [], all, codes, lower_unit, map, none, not, refl, reverse, some, true, ℕ, ◌&&◌, ◌||◌,
  ◌↔◌, ◌∷◌, ◌≡◌, text-Eq,
}
use forge_hub.Base.{text-Eq}
use forge_hub.Gates.Reviews.Submitted.{IsStale}
use forge_hub.Gates.Reviews.Newest.{IsNewest, compute_review_summary-changes_requested}
use forge_hub.Gates.Reviews.{Review, compute_review_summary, reviewer_of, reviewers_of}
use forge_hub.Gates.Protection.{
  ProtectionRuleRow, ReviewCounts, ProtectionRuleState, evaluate_merge_protection,
  evaluate_merge_protection-blocked, approvals_block, checks_block, is_given,
}
use forge_hub.Gates.Checks.{CheckLike, summarize_check_runs, CheckSummary}

abbrev passed : CheckLike
passed = record { status = codes "completed"; conclusion = some (codes "success") }

abbrev queued : CheckLike
queued = record { status = codes "queued"; conclusion = none }

one_passed_of_two :
    summarize_check_runs (passed ∷ queued ∷ [])
    ≡ record { total = 2; passing = 1; failing = 0; pending = 1 }
unfolding summarize_check_runs
one_passed_of_two = refl

abbrev review : Text → Text → ℕ → Text → Review
review author state time sha = record {
  pull_request_id = codes "p";
  author_id = author;
  author_handle = author;
  state = state;
  submitted_at = some time;
  commit_sha = some sha;
}

abbrev reviews : List Review
reviews =
    review (codes "ada") (codes "CHANGES_REQUESTED") 1 (codes "c1")
    ∷ review (codes "bob") (codes "CHANGES_REQUESTED") 2 (codes "c0")
    ∷ review (codes "ada") (codes "APPROVED") 3 (codes "c1")
    ∷ []

compute_review_summary-counts :
    ((compute_review_summary reviews [] (codes "p") (some (codes "c1"))).approvals ≡ 1)
    × ((compute_review_summary reviews [] (codes "p") (some (codes "c1"))).changes_requested ≡ 0)
    × ((compute_review_summary reviews [] (codes "p") (some (codes "c1"))).stale_count ≡ 1)
    × ((compute_review_summary reviews [] (codes "p") none).changes_requested ≡ 1)
unfolding compute_review_summary reviewers_of reviewer_of
compute_review_summary-counts = (refl, refl, refl, refl)

-- The order of the table does not matter for reviews of different dates.
compute_review_summary-reversed :
    ((compute_review_summary (reverse reviews) [] (codes "p") (some (codes "c1"))).approvals ≡ 1)
    × ((compute_review_summary (reverse reviews) [] (codes "p") none).changes_requested ≡ 1)
unfolding compute_review_summary reviewers_of reviewer_of
compute_review_summary-reversed = (refl, refl)

compute_review_summary-changes_requested_example :
    ((compute_review_summary reviews [] (codes "p") (some (codes "c1"))).changes_requested ≡ 0) ↔ (
      (r : Review)
      → IsNewest (codes "p") reviews r
      → map lower_unit r.state ≡ codes "changes_requested"
      → IsStale r.commit_sha (some (codes "c1")))
compute_review_summary-changes_requested_example =
    compute_review_summary-changes_requested reviews [] (codes "p") (some (codes "c1"))

abbrev rule : ProtectionRuleRow
rule = record {
  require_pull_request = true;
  required_approvals = 2;
  require_green_checks = true;
  block_force_push = true;
}

abbrev counts : ReviewCounts
counts = record { approvals = 2; changes_requested = 0 }

abbrev checks : CheckSummary
checks = record { total = 3; passing = 2; failing = 1; pending = 0 }

evaluate_merge_protection-reason :
    (evaluate_merge_protection rule (codes "main") counts (some checks)).reason
    ≡ some (
        codes
          "Branch protection: \"main\" requires all status checks to pass (1 failing, 0 pending).")
unfolding evaluate_merge_protection
evaluate_merge_protection-reason = refl

evaluate_merge_protection-blocked_example :
    (evaluate_merge_protection rule (codes "main") counts (some checks)).blocked
      ≡ (approvals_block rule counts || rule.require_green_checks && checks_block (some checks))
    × not (
        all
          (λ (r : ProtectionRuleState). r.satisfied)
          (evaluate_merge_protection rule (codes "main") counts (some checks)).rules)
      ≡ (evaluate_merge_protection rule (codes "main") counts (some checks)).blocked
    × is_given (evaluate_merge_protection rule (codes "main") counts (some checks)).reason
      ≡ (evaluate_merge_protection rule (codes "main") counts (some checks)).blocked
evaluate_merge_protection-blocked_example =
    evaluate_merge_protection-blocked rule (codes "main") counts (some checks)
