-- ===== src/AutoMerge.antt =====
-- apps/api/src/auto-merge.ts and pull-merge.ts: merging a pull request, and merging it by itself once
-- its gates are green. This file holds the tables that the code reads and writes.
pub mod FollowUps
pub mod PullMerge
pub mod Gate
pub mod Reasons
pub mod Fire
pub mod Runs
pub mod Fired
pub mod Stages
pub mod Candidates
pub mod Ready
pub mod Guard
pub mod Tests
use forge_hub.Base.{
  Act, Bool, List, Option, Text, [], codes, fetch, get_or, if◌then◌else◌, lookup, none, some,
  update, ℕ, ◌++◌, ◌===◌, ◌∷◌, ◌>>=◌, ◌>>◌, text-Eq,
}
use forge_hub.Access.{RepoAccessInput}
use forge_hub.MergePolicy.{MergeMethod}
use forge_hub.Gates.Reviews.{Review, ReviewComment}
use forge_hub.Gates.Checks.{CheckLike}
use forge_hub.Gates.Protection.{ProtectionRuleRow}

pub data PullState : Type 0 where
  open_pull closed_pull merged_pull : PullState

-- A row of `pullRequest`.
pub record PullRow : Type 0 where
  pub id : Text
  pub repo_id : Text
  pub number : ℕ
  pub title : Text
  pub state : PullState
  pub from_branch : Text
  pub to_branch : Text
  pub is_draft : Bool
  pub auto_merge_method : Option Text
  pub auto_merge_by_id : Option Text
  pub merge_method : Option MergeMethod
  pub merge_commit_sha : Option Text
  pub base_sha : Option Text
  pub head_sha : Option Text

-- A row of `repo`, with the relations of `repoAccessInclude`.
pub record RepoRow : Type 0 where
  pub id : Text
  pub storage_key : Option Text
  pub allowed_merge_methods : Option Text
  pub default_merge_method : Option Text
  pub delete_branch_on_merge : Bool
  pub access : RepoAccessInput

pub record UserRow : Type 0 where
  pub handle : Text
  pub display_name : Option Text
  pub email : Option Text

-- A row of `workflowRun`.
pub record RunRow : Type 0 where
  pub repo_id : Text
  pub commit_sha : Text
  pub check_runs : List CheckLike

-- A row of `protectedBranch`.
pub record ProtectedBranch : Type 0 where
  pub repo_id : Text
  pub branch : Text
  pub rule : ProtectionRuleRow

-- A closing reference of a pull request to an issue.
pub record ClosingRef : Type 0 where
  pub source_id : Text
  pub target_id : Text
  pub target_number : ℕ

pub record PullRange : Type 0 where
  pub base : Text
  pub head : Text

pub record CommitAuthor : Type 0 where
  pub name : Text
  pub email : Text

-- What a merge in the bare repository comes to.
pub data MergeResult : Type 0 where
  merged_at : Text → MergeResult
  already_merged : MergeResult
  conflicts : MergeResult

-- git, by storage key and branch names; a call that throws is a flag of the run.
pub record Git : Type 0 where
  pub resolve_branch_sha : Text → Text → Option Text
  pub live_range : Text → Text → Text → Option PullRange
  pub merge_base_subjects : Text → Text → Text → List Text
  pub default_branch : Text → Text
  pub perform_merge : Text → Text → Text → Text → MergeResult
  pub perform_squash_merge : Text → Text → Text → Text → CommitAuthor → MergeResult
  pub perform_rebase_merge : Text → Text → Text → MergeResult

-- The tables that are only read, and git.
pub record Env : Type 0 where
  pub repos : List (Text × RepoRow)
  pub users : List (Text × UserRow)
  pub reviews : List Review
  pub comments : List ReviewComment
  pub runs : List RunRow
  pub protected_branches : List ProtectedBranch
  pub closing_refs : List ClosingRef
  pub git : Git

-- What the code does besides writing rows of pull requests and issues.
pub data Effect : Type 0 where
  pushed_merge : Text → MergeMethod → Text → Effect
  timeline_event : ℕ → Text → Text → Effect
  merged_webhook : ℕ → Text → Effect
  push_event : Text → Text → Text → Effect
  deleted_branch : Text → Effect
  ingested : Text → Text → Effect

-- The rows that are written, the set `inFlight`, and the effects in their order.
pub record World : Type 0 where
  pub pulls : List (Text × PullRow)
  pub open_issues : List (Text × Bool)
  pub in_flight : List Text
  pub effects : List Effect

-- `update({ where: { id } })` of a table.
unfoldable pub adjust : {V : Type 0} → Text → (V → V) → List (Text × V) → List (Text × V)
adjust id f [] = []
adjust id f ((j, v) ∷ m) = if j === id then (j, f v) ∷ m else (j, v) ∷ adjust id f m

abbrev pub set_pull : Text → (PullRow → PullRow) → World → World
unfolding adjust
set_pull id f w = record w { pulls = adjust id f w.pulls }

abbrev pub log : Effect → World → World
log effect w = record w { effects = w.effects ++ effect ∷ [] }

-- A text that is not empty: what `if (s)` and `s || d` ask of `s`.
abbrev pub truthy : Option Text → Option Text
truthy none = none
truthy (some []) = none
truthy (some (c ∷ s)) = some (c ∷ s)

-- `recordEvent`: the lookup of the actor's handle, and the row.
unfoldable pub record_event : Env → ℕ → Text → Text → Act World (Unit {0})
unfolding lookup
record_event env number kind actor_id = do
  actor ← fetch (λ w. lookup actor_id env.users)
  update (
      log (
        timeline_event number kind
          (get_or (map_option (λ (u : UserRow). u.handle) actor) (codes "ghost"))))
  where
    map_option : {A B : Type 0} → (A → B) → Option A → Option B
    map_option f none = none
    map_option f (some a) = some (f a)
