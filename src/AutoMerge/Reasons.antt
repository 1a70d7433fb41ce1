-- ===== src/AutoMerge/Reasons.antt =====
-- auto-merge.ts: what the gates come to when nothing is left to object.
use forge_hub.Base.{
  >>=-done, Bool, Bool-cases, List, Option, Text, [], ap, ap₂, arith, done, false, fetch,
  fetch-done, find, if◌then◌else◌, inl, inr, ltb, none, pure-done, refl, some, sym, true, ℕ, ◌&&◌,
  ◌++◌, ◌||◌, ◌∙◌, ◌∷◌, ◌≡◌,
}
use forge_hub.AutoMerge.Gate.{
  summary_at, review_summary, evaluate_auto_merge_gates, check_summary_for_commit, head_summary,
  gate_reasons, commit_summary, status_reasons, protection_reasons, draft_reasons, review_reasons,
  check_reasons,
}
use forge_hub.AutoMerge.{Env, PullRow, World, truthy, ProtectedBranch, ProtectionRuleRow}
use forge_hub.Gates.Checks.{CheckSummary}
use forge_hub.Gates.Reviews.{ReviewSummary, compute_review_summary}
use forge_hub.AutoMerge.FollowUps.{is_rule_of}
use forge_hub.Gates.Protection.{
  approvals_rule, checks_rule, evaluate_merge_protection, approvals_block, ProtectionMergeStatus,
  checks_block, ReviewCounts, is_given, evaluate_merge_protection-blocked,
}

-- The summary of the head, where there is a head.
unfoldable pub head_checks : Env → Text → Option Text → Option CheckSummary
head_checks env repo_id head_sha = elim (truthy head_sha) [
  | none ↦ none
  | some sha ↦ commit_summary env repo_id sha
]

-- The reasons as a value, with no calls.
unfoldable pub reasons_of : Env → PullRow → Text → Option Text → List Text
reasons_of env pr repo_id head_sha =
    gate_reasons pr (compute_review_summary env.reviews env.comments pr.id head_sha)
      (head_checks env repo_id head_sha)
      (find (is_rule_of repo_id pr.to_branch) env.protected_branches)

review_summary-done :
    (env : Env) (id : Text) (head : Option Text) (fs gs : List Bool) (w t : World)
    (r : ReviewSummary)
    → review_summary env id head fs w ≡ done r gs t
    → (compute_review_summary env.reviews env.comments id head ≡ r) × (w ≡ t)
unfolding review_summary
review_summary-done env id head fs gs w t r h =
    let (reviews, hs, u, first, h1) = >>=-done (fetch (λ w. env.reviews)) _ fs gs w t r h in
    let (comments, is, v, second, h2) = >>=-done (fetch (λ w. env.comments)) _ hs gs u t r h1 in
    let (e1, s1) = fetch-done _ fs hs w u reviews first in
    let (e2, s2) = fetch-done _ hs is u v comments second in
    let (e3, s3) = pure-done is gs v t _ r h2 in
    (ap₂ (λ rs cs. compute_review_summary rs cs id head) e1 e2 ∙ e3, s1 ∙ s2 ∙ s3)

summary_at-done :
    (env : Env) (repo_id : Text) (sha : Option Text) (fs gs : List Bool) (w t : World)
    (c : Option CheckSummary)
    → summary_at env repo_id sha fs w ≡ done c gs t
    → ((elim sha [ none ↦ none | some s ↦ commit_summary env repo_id s ]) ≡ c) × (w ≡ t)
unfolding summary_at check_summary_for_commit
summary_at-done env repo_id none fs gs w t c h = (cc, cc)
summary_at-done env repo_id (some sha) fs gs w t c h = fetch-done _ fs gs w t c h

head_checks-at :
    (env : Env) (repo_id : Text) (head : Option Text)
    → head_checks env repo_id head
      ≡ (elim (truthy head) [ none ↦ none | some s ↦ commit_summary env repo_id s ])
unfolding head_checks
head_checks-at env repo_id head = refl

-- An evaluation of the gates that does not throw finds these reasons and changes nothing.
pub evaluate_auto_merge_gates-done :
    (env : Env) (pr : PullRow) (repo_id : Text) (head : Option Text) (fs gs : List Bool)
    (w t : World) (reasons : List Text)
    → evaluate_auto_merge_gates env pr repo_id head fs w ≡ done reasons gs t
    → (reasons_of env pr repo_id head ≡ reasons) × (w ≡ t)
unfolding evaluate_auto_merge_gates head_summary reasons_of
evaluate_auto_merge_gates-done env pr repo_id head fs gs w t reasons h =
    let (review, hs, u, first, h1) =
      >>=-done (review_summary env pr.id head) _ fs gs w t reasons h in
    let (checks, is, v, second, h2) =
      >>=-done (summary_at env repo_id (truthy head)) _ hs gs u t reasons h1 in
    let (rule, js, x, third, h3) =
      >>=-done (fetch (λ w. find (is_rule_of repo_id pr.to_branch) env.protected_branches)) _ is gs
        v t reasons h2 in
    let (e1, s1) = review_summary-done env pr.id head fs hs w u review first in
    let (e2, s2) = summary_at-done env repo_id (truthy head) hs is u v checks second in
    let (e3, s3) = fetch-done _ is js v x rule third in
    let (e4, s4) = pure-done js gs x t _ reasons h3 in
    (
      ap₂
            (λ r c.
              gate_reasons pr r c (find (is_rule_of repo_id pr.to_branch) env.protected_branches))
            e1 (head_checks-at env repo_id head ∙ e2)
          ∙ ap (gate_reasons pr review checks) e3
          ∙ e4,
      s1 ∙ s2 ∙ s3 ∙ s4,
    )

-- The branch's rule objects to the reviews or to the checks.
abbrev pub rule_blocks : Option ProtectedBranch → ReviewSummary → Option CheckSummary → Bool
rule_blocks none review checks = false
rule_blocks (some p) review checks =
    approvals_block p.rule
      (record { approvals = review.approvals; changes_requested = review.changes_requested })
    || p.rule.require_green_checks && checks_block checks

truthy-approvals_rule :
    (rule : ProtectionRuleRow) (branch : Text) (counts : ReviewCounts)
    → truthy (approvals_rule rule branch counts).1 ≡ (approvals_rule rule branch counts).1
unfolding approvals_rule
truthy-approvals_rule rule branch counts = ground arith

truthy-checks_rule :
    (green : Bool) (branch : Text) (checks : Option CheckSummary) (early : Option Text)
    → truthy early ≡ early
    → truthy (checks_rule green branch checks early).1 ≡ (checks_rule green branch checks early).1
unfolding checks_rule
truthy-checks_rule green branch checks early h = ground arith

truthy-reason :
    (rule : ProtectionRuleRow) (branch : Text) (counts : ReviewCounts)
    (checks : Option CheckSummary)
    → truthy (evaluate_merge_protection rule branch counts checks).reason
      ≡ (evaluate_merge_protection rule branch counts checks).reason
unfolding evaluate_merge_protection
truthy-reason rule branch counts checks =
    truthy-checks_rule rule.require_green_checks branch checks _
      (truthy-approvals_rule rule branch counts)

status_reasons-nil :
    (status : ProtectionMergeStatus)
    → truthy status.reason ≡ status.reason
    → is_given status.reason ≡ status.blocked
    → status_reasons status ≡ []
    → status.blocked ≡ false
unfolding status_reasons
status_reasons-nil status h k e = ground arith

rule-met :
    (rule : ProtectionRuleRow) (counts : ReviewCounts) (checks : Option CheckSummary)
    → (approvals_block rule counts
        || rule.require_green_checks
          && checks_block (if rule.require_green_checks then checks else none))
      ≡ false
    → (approvals_block rule counts || rule.require_green_checks && checks_block checks) ≡ false
rule-met rule counts checks h = ground arith

protection_reasons-nil :
    (rule : Option ProtectedBranch) (branch : Text) (review : ReviewSummary)
    (checks : Option CheckSummary)
    → protection_reasons rule branch review checks ≡ []
    → rule_blocks rule review checks ≡ false
unfolding protection_reasons
protection_reasons-nil none branch review checks h = refl
protection_reasons-nil (some p) branch review checks h =
    let counts : ReviewCounts = record {
      approvals = review.approvals;
      changes_requested = review.changes_requested;
    } in
    let asked = if p.rule.require_green_checks then checks else none in
    let status = evaluate_merge_protection p.rule branch counts asked in
    let (blocked, _, reason) = evaluate_merge_protection-blocked p.rule branch counts asked in
    let quiet = status_reasons-nil status (truthy-reason p.rule branch counts asked) reason in
    elim (Bool-cases (ltb 0 p.rule.required_approvals || p.rule.require_green_checks)) [
      | inl e ↦ rule-met p.rule counts checks (sym blocked ∙ quiet (rw e at h))
      | inr e ↦ ground arith
    ]

++-nil : {A : Type 0} (xs ys : List A) → xs ++ ys ≡ [] → (xs ≡ []) × (ys ≡ [])
++-nil [] ys h = (refl, h)
++-nil (x ∷ xs) ys h = absurd (cc)

draft_reasons-nil : (d : Bool) → draft_reasons d ≡ [] → d ≡ false
unfolding draft_reasons
draft_reasons-nil true h = absurd (cc)
draft_reasons-nil false h = refl

review_reasons-nil : (n : ℕ) → review_reasons n ≡ [] → n ≡ 0
unfolding review_reasons
review_reasons-nil n h = ground arith

check_reasons-nil : (c : Option CheckSummary) → check_reasons c ≡ [] → checks_block c ≡ false
unfolding check_reasons
check_reasons-nil none h = refl
check_reasons-nil (some c) h = ground arith

-- No reason is left only if the pull request is no draft, no change request is active, the checks of
-- the head have not failed and are not pending, and the branch's rule is met.
pub gate_reasons-nil :
    (pr : PullRow) (review : ReviewSummary) (checks : Option CheckSummary)
    (rule : Option ProtectedBranch)
    → gate_reasons pr review checks rule ≡ []
    → (pr.is_draft ≡ false)
      × (review.changes_requested ≡ 0)
      × (checks_block checks ≡ false)
      × (rule_blocks rule review checks ≡ false)
unfolding gate_reasons
gate_reasons-nil pr review checks rule h =
    let (h2, protection) = ++-nil _ _ h in
    let (h1, green) = ++-nil _ _ h2 in
    let (draft, changes) = ++-nil _ _ h1 in
    (
      draft_reasons-nil pr.is_draft draft,
      review_reasons-nil review.changes_requested changes,
      check_reasons-nil checks green,
      protection_reasons-nil rule pr.to_branch review checks protection,
    )
