-- ===== src/AutoMerge/Ready.antt =====
-- auto-merge.ts: the guards that a pull request has passed whenever it is merged by itself.
use forge_hub.Base.{
  >>=-done, Bool, Bool-cases, List, Option, Text, ap, done, false, fetch, fetch-done, find,
  includes, inl, inr, lookup, none, some, sym, true, ◌∙◌, ◌≡◌, ◌⊎◌, text-Eq,
}
use forge_hub.MergePolicy.{method-Eq, is_merge_method, repo_merge_policy}
use forge_hub.AutoMerge.Fire.{fired, Armed, armed_of, maybe_auto_merge_pr, evaluate_pr, enter}
use forge_hub.AutoMerge.FollowUps.{is_open, is_rule_of}
use forge_hub.AutoMerge.PullMerge.{mark_merged}
use forge_hub.AutoMerge.{Env, World, RepoRow, UserRow, truthy, adjust, PullRange}
use forge_hub.AutoMerge.Reasons.{head_checks, rule_blocks}
use forge_hub.Access.{can_write}
use forge_hub.Gates.Reviews.{compute_review_summary}
use forge_hub.Gates.Protection.{checks_block}
use forge_hub.AutoMerge.Candidates.{
  after_leave-done, fire_armed-fired, armed_of-inr, reasons_of-nil,
}

-- The row, the repository and the arming user of a pull request that is merged by itself. `head_sha`
-- is the head that the gates were evaluated at: that of the branch, or none if reading it threw.
pub record Ready (env : Env) (w : World) (pull_id : Text) : Type 0 where
  pub armed : Armed
  pub repo : RepoRow
  pub storage_key : Text
  pub user : UserRow
  pub head_sha : Option Text
  pub found : lookup pull_id w.pulls ≡ some armed.pr
  pub opened : is_open armed.pr.state ≡ true
  pub armed_method : is_merge_method armed.pr.auto_merge_method ≡ some armed.method
  pub armed_by : truthy armed.pr.auto_merge_by_id ≡ some armed.armer
  pub stored : lookup armed.pr.repo_id env.repos ≡ some repo
  pub keyed : truthy repo.storage_key ≡ some storage_key
  pub allowed :
      includes
        (repo_merge_policy repo.allowed_merge_methods repo.default_merge_method).allowed_methods
        armed.method
      ≡ true
  pub known : lookup armed.armer env.users ≡ some user
  pub writes : can_write repo.access (some armed.armer) ≡ true
  pub head_read :
      (head_sha ≡ env.git.resolve_branch_sha storage_key armed.pr.from_branch) ⊎ (head_sha ≡ none)
  pub not_draft : armed.pr.is_draft ≡ false
  pub no_changes_requested :
      (compute_review_summary env.reviews env.comments armed.pr.id head_sha).changes_requested ≡ 0
  pub green : checks_block (head_checks env repo.id head_sha) ≡ false
  pub rule_met :
      rule_blocks
        (find (is_rule_of repo.id armed.pr.to_branch) env.protected_branches)
        (compute_review_summary env.reviews env.comments armed.pr.id head_sha)
        (head_checks env repo.id head_sha)
      ≡ false

-- Whenever an evaluation merges a pull request, at a commit `sha`, no other evaluation of it was
-- under way, and the pull request was open and armed with a method that the repository's policy
-- allows by a user who exists and may write; it was no draft, no change request was active, the
-- checks of the head had not failed and were not pending, and the branch's rule was met, all at the
-- branch's head, or at no head if reading that threw. Afterwards its row says that it is merged at
-- `sha` and no longer armed, and all other rows are as they were.
pub maybe_auto_merge_pr-fired :
    (env : Env) (pull_id : Text) (faults rest : List Bool) (w t : World) (sha : Text)
    → maybe_auto_merge_pr env pull_id faults w ≡ done (fired sha) rest t
    → (includes w.in_flight pull_id ≡ false)
      × (r : Ready env w pull_id) × (range : Option PullRange) × (t.pulls
          ≡ adjust r.armed.pr.id (mark_merged r.armed.method sha range) w.pulls)
unfolding maybe_auto_merge_pr evaluate_pr
maybe_auto_merge_pr-fired env pull_id faults rest w t sha h =
    elim (Bool-cases (includes w.in_flight pull_id)) [
      | inl e ↦ absurd (cc (rw e at h))
      | inr e ↦
          let (u, ran, rows) =
            after_leave-done pull_id (evaluate_pr env pull_id faults (enter pull_id w)) rest t
              (fired sha) (rw e at h) in
          let (row, hs, v, first, h1) =
            >>=-done (fetch (λ (x : World). lookup pull_id x.pulls)) _ faults rest (enter pull_id w)
              u (fired sha) ran in
          let (found, same) = fetch-done _ faults hs (enter pull_id w) v row first in
          let (a, repo, key, candidate, stored, has_key, stages) =
            fire_armed-fired env (armed_of row) hs rest v u sha h1 in
          let (user, known, writes, allowed, (head, read, empty, (range, moved))) = stages in
          let (is_row, opened, armed_method, armed_by) = armed_of-inr row a candidate in
          let (not_draft, quiet, green, rule_met) = reasons_of-nil env a.pr repo.id head empty in
          (
            e,
            record {
              armed = a;
              repo = repo;
              storage_key = key;
              user = user;
              head_sha = head;
              found = found ∙ is_row;
              opened = opened;
              armed_method = armed_method;
              armed_by = armed_by;
              stored = stored;
              keyed = has_key;
              allowed = allowed;
              known = known;
              writes = writes;
              head_read = read;
              not_draft = not_draft;
              no_changes_requested = quiet;
              green = green;
              rule_met = rule_met;
            },
            range,
            sym rows
                ∙ moved
                ∙ ap (λ (x : World). adjust a.pr.id (mark_merged a.method sha range) x.pulls)
                    (sym same),
          )
    ]
