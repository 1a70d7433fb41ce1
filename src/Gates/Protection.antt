-- ===== src/Gates/Protection.antt =====
-- apps/api/src/branch-protection.ts: the hard gate on merges into a protected branch.
use forge_hub.Base.{
  Bool, List, Option, Text, [], all, all-append, arith, codes, false, if◌then◌else◌, leb, ltb, none,
  not, show, some, true, ℕ, ◌&&◌, ◌++◌, ◌==◌, ◌||◌, ◌∷◌, ◌≡◌, text-Eq,
}
use forge_hub.Gates.Checks.{CheckSummary}

pub record ProtectionRuleRow : Type 0 where
  pub require_pull_request : Bool
  pub required_approvals : ℕ
  pub require_green_checks : Bool
  pub block_force_push : Bool

pub data RuleKey : Type 0 where
  approvals_key checks_key : RuleKey

pub record ProtectionRuleState : Type 0 where
  pub key : RuleKey
  pub label : Text
  pub satisfied : Bool
  pub detail : Text
  pub note : Option Text

pub record ProtectionMergeStatus : Type 0 where
  pub branch : Text
  pub required_approvals : ℕ
  pub require_green_checks : Bool
  pub approvals : ℕ
  pub changes_requested : ℕ
  pub checks : Option CheckSummary
  pub rules : List ProtectionRuleState
  pub blocked : Bool
  pub reason : Option Text

-- `{ approvals, changesRequested }`
pub record ReviewCounts : Type 0 where
  pub approvals : ℕ
  pub changes_requested : ℕ

abbrev plural : ℕ → Text
plural n = if n == 1 then [] else codes "s"

-- `!satisfied && reason === null`
abbrev first_reason : Bool → Text → Option Text → Option Text
first_reason satisfied text none = if satisfied then none else some text
first_reason satisfied text (some earlier) = some earlier

abbrev changes_detail : ℕ → Text
unfolding show
changes_detail n = show n ++ codes " reviewer" ++ plural n ++ codes " requested changes"

abbrev approvals_detail : ℕ → ℕ → Text
unfolding show
approvals_detail approvals required =
    show approvals ++ codes " of " ++ show required ++ codes " approval" ++ plural required

abbrev approvals_label : ℕ → Text
unfolding show
approvals_label required =
    codes "Requires " ++ show required ++ codes " approving review" ++ plural required

abbrev changes_reason : Text → ℕ → Text
unfolding show
changes_reason branch n =
    codes "Branch protection: \""
    ++ branch
    ++ codes "\" has "
    ++ show n
    ++ codes " active change request"
    ++ plural n
    ++ codes " that must be resolved before merging."

abbrev approvals_reason : Text → ℕ → ℕ → Text
unfolding show
approvals_reason branch approvals required =
    codes "Branch protection: \""
    ++ branch
    ++ codes "\" requires "
    ++ show required
    ++ codes " approving review"
    ++ plural required
    ++ codes ", but only "
    ++ show approvals
    ++ codes " non-stale approval"
    ++ plural approvals
    ++ (if approvals == 1 then codes " is" else codes " are")
    ++ codes " present."

-- The first rule, with the reason it leaves.
unfoldable pub approvals_rule :
    ProtectionRuleRow → Text → ReviewCounts → List ProtectionRuleState × Option Text
unfolding changes_detail approvals_detail approvals_label changes_reason approvals_reason
approvals_rule rule branch review =
    let enough = leb rule.required_approvals review.approvals in
    let no_blocks = review.changes_requested == 0 in
    let satisfied = enough && no_blocks in
    if ltb 0 rule.required_approvals
    then (
      record {
        key = approvals_key;
        label = approvals_label rule.required_approvals;
        satisfied = satisfied;
        detail =
            if not no_blocks
            then changes_detail review.changes_requested
            else approvals_detail review.approvals rule.required_approvals;
        note = none;
      }
          ∷ [],
      first_reason satisfied
          (if not no_blocks
            then changes_reason branch review.changes_requested
            else approvals_reason branch review.approvals rule.required_approvals)
          none,
    )
    else ([], none)

abbrev failing_detail : CheckSummary → Text
unfolding show
failing_detail checks =
    show checks.failing ++ codes " failing, " ++ show checks.pending ++ codes " pending"

abbrev passing_detail : CheckSummary → Text
unfolding show
passing_detail checks =
    show checks.passing
    ++ b'/' ∷ show checks.total
    ++ codes " check"
    ++ plural checks.total
    ++ codes " passing"

-- The second rule, with the reason after it.
unfoldable pub checks_rule :
    Bool → Text → Option CheckSummary → Option Text → List ProtectionRuleState × Option Text
unfolding failing_detail passing_detail
checks_rule false branch checks reason = ([], reason)
checks_rule true branch none reason = (
  record {
    key = checks_key;
    label = codes "Requires status checks to pass";
    satisfied = true;
    detail = codes "No checks configured";
    note = some (
        codes
          "No checks have run for this commit — the rule passes vacuously until a workflow reports.");
  }
      ∷ [],
  reason,
)
checks_rule true branch (some checks) reason =
    let satisfied = checks.failing == 0 && checks.pending == 0 in
    (
      record {
        key = checks_key;
        label = codes "Requires status checks to pass";
        satisfied = satisfied;
        detail = if satisfied then passing_detail checks else failing_detail checks;
        note = none;
      }
          ∷ [],
      first_reason satisfied
          (codes "Branch protection: \""
            ++ branch
            ++ codes "\" requires all status checks to pass ("
            ++ failing_detail checks
            ++ codes ").")
          reason,
    )

abbrev pub is_given {ℓ} : {A : Type ℓ} → Option A → Bool
is_given none = false
is_given (some a) = true

unfoldable pub evaluate_merge_protection :
    ProtectionRuleRow → Text → ReviewCounts → Option CheckSummary → ProtectionMergeStatus
unfolding approvals_rule checks_rule
evaluate_merge_protection rule branch review checks =
    let (first, early) = approvals_rule rule branch review in
    let (second, reason) = checks_rule rule.require_green_checks branch checks early in
    record {
      branch = branch;
      required_approvals = rule.required_approvals;
      require_green_checks = rule.require_green_checks;
      approvals = review.approvals;
      changes_requested = review.changes_requested;
      checks = checks;
      rules = first ++ second;
      blocked = is_given reason;
      reason = reason;
    }

-- The checks stand in the way: some have run, and not all of them have passed.
abbrev pub checks_block : Option CheckSummary → Bool
checks_block none = false
checks_block (some checks) = not (checks.failing == 0 && checks.pending == 0)

abbrev all_satisfied : List ProtectionRuleState → Bool
all_satisfied rules = all (λ (r : ProtectionRuleState). r.satisfied) rules

-- What the first rule asks is not met.
abbrev pub approvals_block : ProtectionRuleRow → ReviewCounts → Bool
approvals_block rule review =
    ltb 0 rule.required_approvals
    && (ltb review.approvals rule.required_approvals || ltb 0 review.changes_requested)

approvals_rule-blocks :
    (rule : ProtectionRuleRow) (branch : Text) (review : ReviewCounts)
    → (is_given (approvals_rule rule branch review).1 ≡ approvals_block rule review)
      × (not (all_satisfied (approvals_rule rule branch review).0) ≡ approvals_block rule review)
unfolding approvals_rule
approvals_rule-blocks rule branch review = ground arith

checks_rule-blocks :
    (green : Bool) (branch : Text) (checks : Option CheckSummary) (early : Option Text)
    → (is_given (checks_rule green branch checks early).1
        ≡ (is_given early || green && checks_block checks))
      × (not (all_satisfied (checks_rule green branch checks early).0)
          ≡ (green && checks_block checks))
unfolding checks_rule
checks_rule-blocks green branch checks early = ground arith

-- A protected branch refuses a merge exactly when it requires approvals and there are too few or a
-- change request is active, or when it requires green checks and some run has failed or is
-- pending; exactly then some active rule is not satisfied, and exactly then a reason is given.
pub evaluate_merge_protection-blocked :
    (rule : ProtectionRuleRow) (branch : Text) (review : ReviewCounts)
    (checks : Option CheckSummary)
    → (evaluate_merge_protection rule branch review checks).blocked
        ≡ (approvals_block rule review || rule.require_green_checks && checks_block checks)
      × not (
          all
            (λ (r : ProtectionRuleState). r.satisfied)
            (evaluate_merge_protection rule branch review checks).rules)
        ≡ (evaluate_merge_protection rule branch review checks).blocked
      × is_given (evaluate_merge_protection rule branch review checks).reason
        ≡ (evaluate_merge_protection rule branch review checks).blocked
unfolding evaluate_merge_protection
evaluate_merge_protection-blocked rule branch review checks =
    let (first, early) = approvals_rule rule branch review in
    let second = (checks_rule rule.require_green_checks branch checks early).0 in
    let first_blocks = approvals_rule-blocks rule branch review in
    let second_blocks = checks_rule-blocks rule.require_green_checks branch checks early in
    ground (
      arith,
      all-append (λ (r : ProtectionRuleState). r.satisfied) first second,
      first_blocks,
      second_blocks,
    )
