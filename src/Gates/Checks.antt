-- ===== src/Gates/Checks.antt =====
-- apps/api/src/ci/summary.ts: check runs counted and rolled up.
use forge_hub.Base.{
  Bool, List, Option, Text, [], all, arith, codes, false, filter, if◌then◌else◌, length, ltb, none,
  not, refl, some, true, ℕ, ◌&&◌, ◌+◌, ◌<◌, ◌===◌, ◌==◌, ◌↔◌, ◌∷◌, ◌≡◌, ◌≢◌, text-Eq,
}

pub record CheckSummary : Type 0 where
  pub total : ℕ
  pub passing : ℕ
  pub failing : ℕ
  pub pending : ℕ

pub record CheckLike : Type 0 where
  pub status : Text
  pub conclusion : Option Text

abbrev pub is_text : Option Text → Text → Bool
is_text none t = false
is_text (some s) t = s === t

-- The loop, with its three counters.
unfoldable pub count_checks : ℕ → ℕ → ℕ → List CheckLike → ℕ × ℕ × ℕ
count_checks passing failing pending [] = (passing, failing, pending)
count_checks passing failing pending (c ∷ checks) =
    let is_pending = count_checks passing failing (pending + 1) checks in
    let is_passing = count_checks (passing + 1) failing pending checks in
    let is_failing = count_checks passing (failing + 1) pending checks in
    if not (c.status === codes "completed")
    then is_pending
    else if is_text c.conclusion (codes "success")
    then is_passing
    else is_failing

unfoldable pub summarize_check_runs : List CheckLike → CheckSummary
unfolding count_checks
summarize_check_runs checks =
    let (passing, failing, pending) = count_checks 0 0 0 checks in
    record { total = length checks; passing = passing; failing = failing; pending = pending }

pub data CheckState : Type 0 where
  success failure pending_state none_state : CheckState

unfoldable pub rollup_state : CheckSummary → CheckState
rollup_state s =
    if s.total == 0
    then none_state
    else if ltb 0 s.pending
    then pending_state
    else if ltb 0 s.failing
    then failure
    else success

abbrev pub is_pending_check : CheckLike → Bool
is_pending_check c = not (c.status === codes "completed")

abbrev pub is_passing_check : CheckLike → Bool
is_passing_check c = c.status === codes "completed" && is_text c.conclusion (codes "success")

abbrev pub is_failing_check : CheckLike → Bool
is_failing_check c = c.status === codes "completed" && not (is_text c.conclusion (codes "success"))

count_checks-filter :
    (passing failing pending : ℕ) (checks : List CheckLike)
    → count_checks passing failing pending checks ≡ (
      passing + length (filter is_passing_check checks),
      failing + length (filter is_failing_check checks),
      pending + length (filter is_pending_check checks),
    )
unfolding count_checks
count_checks-filter passing failing pending [] = ground arith
count_checks-filter passing failing pending (c ∷ checks) = ground (
  arith,
  count_checks-filter passing failing (pending + 1) checks,
  count_checks-filter (passing + 1) failing pending checks,
  count_checks-filter passing (failing + 1) pending checks,
)

length-kinds :
    (checks : List CheckLike)
    → length checks
      ≡ length (filter is_passing_check checks)
        + length (filter is_failing_check checks)
        + length (filter is_pending_check checks)
length-kinds [] = refl
length-kinds (c ∷ checks) = ground (arith, length-kinds checks)

all-passing_iff :
    (checks : List CheckLike)
    → (all is_passing_check checks ≡ true)
      ↔ (length (filter is_failing_check checks) + length (filter is_pending_check checks) ≡ 0)
all-passing_iff [] = (λ _. refl, λ _. refl)
all-passing_iff (c ∷ checks) = ground (arith, all-passing_iff checks)

-- The summary counts the passing, the failing and the pending runs, and every run is one of these.
pub summarize_check_runs-counts :
    (checks : List CheckLike)
    → (summarize_check_runs checks).passing ≡ length (filter is_passing_check checks)
      × (summarize_check_runs checks).failing ≡ length (filter is_failing_check checks)
      × (summarize_check_runs checks).pending ≡ length (filter is_pending_check checks)
      × (summarize_check_runs checks).total
        ≡ (summarize_check_runs checks).passing
          + (summarize_check_runs checks).failing
          + (summarize_check_runs checks).pending
unfolding summarize_check_runs
summarize_check_runs-counts checks =
    rw (count_checks-filter 0 0 0 checks) (ground (arith, length-kinds checks))

rollup_state-success_iff :
    (s : CheckSummary) → (rollup_state s ≡ success) ↔ ((0 < s.total) × (s.failing + s.pending ≡ 0))
unfolding rollup_state
rollup_state-success_iff s = ground arith

-- A commit is green exactly when it has a run and all of its runs are completed with success.
pub rollup_state-success :
    (checks : List CheckLike)
    → (rollup_state (summarize_check_runs checks) ≡ success)
      ↔ ((checks ≢ []) × (all is_passing_check checks ≡ true))
rollup_state-success [] =
    unfold summarize_check_runs rollup_state in (λ e. absurd (cc), λ h. absurd (h.0 refl))
rollup_state-success (c ∷ checks) =
    let counts = summarize_check_runs-counts (c ∷ checks) in
    let (to, back) = rollup_state-success_iff (summarize_check_runs (c ∷ checks)) in
    let (split, join) = all-passing_iff (c ∷ checks) in
    (
      λ e. (λ n. cc, join (omega (arith, counts, to e))),
      λ h.
          back (omega (arith, counts, length-kinds (c ∷ checks)), omega (arith, counts, split h.1)),
    )
