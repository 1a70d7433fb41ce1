-- ===== src/AutoMerge/PullMerge.antt =====
-- apps/api/src/pull-merge.ts: the merge itself and what follows it.
use forge_hub.Base.{
  Act, List, Option, Text, [], call, catch, codes, fetch, get_or, if◌then◌else◌, join_with, lookup,
  map, modify, none, pure, show, some, trim, update, ◌++◌, ◌>>=◌, ◌∷◌, ◌>>◌, text-Eq,
}
use forge_hub.AutoMerge.{
  merged_pull, merged_at, already_merged, conflicts, pushed_merge, merged_webhook, push_event,
  ingested, MergeMethod, PullRow, record_event, UserRow, Env, World, CommitAuthor, MergeResult,
  truthy, log, PullRange, set_pull,
}
use forge_hub.MergePolicy.{merge, squash, rebase}
use forge_hub.AutoMerge.FollowUps.{
  merged, conflict, nothing_to_merge, failed, PullMergeInput, close_issues_for_merged_pull,
  delete_quietly, PullMergeOutcome,
}

abbrev pub or_text : Option Text → Text → Text
or_text none d = d
or_text (some s) d = s

abbrev pub trimmed : Option Text → Option Text
unfolding trim
trimmed none = none
trimmed (some s) = truthy (some (trim s))

abbrev pub author_of : Option UserRow → CommitAuthor
unfolding trimmed
author_of none = record { name = codes "ForgeHub"; email = codes "merge@forgehub.io" }
author_of (some u) = record {
  name = or_text (trimmed u.display_name) (or_text (truthy (some u.handle)) (codes "ForgeHub"));
  email = or_text (truthy u.email) (codes "merge@forgehub.io");
}

-- The git identity of the user that a merge is performed as.
unfoldable pub resolve_actor_identity : Env → Text → Act World CommitAuthor
unfolding lookup author_of
resolve_actor_identity env user_id = do
  user ← fetch (λ w. lookup user_id env.users)
  pure (author_of user)

-- A merge that succeeds has moved the target branch.
abbrev pub logged : Text → MergeMethod → MergeResult → World → World × MergeResult
logged branch method (merged_at sha) w = (log (pushed_merge branch method sha) w, merged_at sha)
logged branch method already_merged w = (w, already_merged)
logged branch method conflicts w = (w, conflicts)

abbrev squash_text : Text → Text → Text
squash_text subject [] = subject ++ 10 ∷ []
squash_text subject (c ∷ s) = subject ++ 10 ∷ 10 ∷ c ∷ s ++ 10 ∷ []

abbrev join_subjects : List Text → Text
unfolding join_with
join_subjects subjects = join_with 10 (map (λ s. codes "* " ++ s) subjects)

unfoldable pub merge_message : PullMergeInput → Text
unfolding show trimmed
merge_message input = or_text (trimmed input.commit_message) (
    codes "Merge '"
    ++ input.from_branch
    ++ codes "' into '"
    ++ input.to_branch
    ++ codes "' (#"
    ++ show input.number
    ++ codes ")")

unfoldable pub squash_message : PullMergeInput → List Text → Text
unfolding show trimmed join_subjects
squash_message input subjects =
    let subject =
      or_text (trimmed input.commit_message)
        (input.title ++ codes " (#" ++ show input.number ++ codes ")") in
    squash_text subject (join_subjects subjects)

-- The `try` block.
unfoldable pub run_merge : Env → PullMergeInput → MergeMethod → Act World MergeResult
unfolding resolve_actor_identity squash_message merge_message
run_merge env input squash = do
  subjects ←
      fetch (λ w. env.git.merge_base_subjects input.storage_key input.to_branch input.from_branch)
  author ← resolve_actor_identity env input.actor_id
  call (
      logged input.to_branch squash (
        env.git.perform_squash_merge input.storage_key input.from_branch input.to_branch
          (squash_message input subjects) author))
run_merge env input rebase = call (
    logged input.to_branch rebase
      (env.git.perform_rebase_merge input.storage_key input.from_branch input.to_branch))
run_merge env input merge = call (
    logged input.to_branch merge (
      env.git.perform_merge input.storage_key input.from_branch input.to_branch
        (merge_message input)))

abbrev base_of : Option PullRange → Option Text
base_of none = none
base_of (some r) = some r.base

abbrev head_of : Option PullRange → Option Text
head_of none = none
head_of (some r) = some r.head

-- The row of a merged pull request.
unfoldable pub mark_merged : MergeMethod → Text → Option PullRange → PullRow → PullRow
mark_merged method sha range p = record p {
  state = merged_pull;
  merge_method = some method;
  merge_commit_sha = some sha;
  base_sha = base_of range;
  head_sha = head_of range;
  auto_merge_method = none;
  auto_merge_by_id = none;
}

abbrev pub zero_sha : Text
zero_sha = codes "0000000000000000000000000000000000000000"

-- `if (beforeSha && result.sha)`
abbrev pub ingest : Option Text → Text → World → World
ingest none sha w = w
ingest (some before) [] w = w
ingest (some before) (c ∷ s) w = log (ingested before (c ∷ s)) w

-- What follows the update of the row.
unfoldable pub merge_side_effects : Env → PullMergeInput → Option Text → Text → Act World (Unit {0})
unfolding record_event close_issues_for_merged_pull delete_quietly
merge_side_effects env input before_sha sha = do
  catch (record_event env input.number (codes "merged") input.actor_id) (pure tt)
  modify (log (merged_webhook input.number sha))
  modify (log (push_event input.to_branch (get_or before_sha zero_sha) sha))
  catch (close_issues_for_merged_pull env input) (pure tt)
  if input.delete_branch_on_merge then delete_quietly env input else pure tt
  modify (ingest (truthy before_sha) sha)

unfoldable pub after_update : Env → PullMergeInput → Option Text → Text → Act World PullMergeOutcome
unfolding merge_side_effects
after_update env input before_sha sha = do
  merge_side_effects env input before_sha sha
  pure (merged sha)

-- What follows a merge that moved the branch to `sha`.
unfoldable pub after_merge :
    Env → PullMergeInput → Option Text → Option PullRange → Text → Act World PullMergeOutcome
unfolding mark_merged after_update
after_merge env input before_sha range sha = do
  update (set_pull input.pull_id (mark_merged input.merge_method sha range))
  after_update env input before_sha sha

-- After the `try` block, which leaves no result if it threw.
unfoldable pub finish :
    Env
    → PullMergeInput
    → Option Text
    → Option PullRange
    → Option MergeResult
    → Act World PullMergeOutcome
unfolding after_merge
finish env input before_sha range none = pure failed
finish env input before_sha range (some already_merged) = pure nothing_to_merge
finish env input before_sha range (some conflicts) = pure conflict
finish env input before_sha range (some (merged_at sha)) =
    after_merge env input before_sha range sha

unfoldable pub execute_pull_merge : Env → PullMergeInput → Act World PullMergeOutcome
unfolding run_merge finish
execute_pull_merge env input = do
  before_sha ← fetch (λ w. env.git.resolve_branch_sha input.storage_key input.to_branch)
  result ← catch (run_merge env input input.merge_method >>= λ r. pure (some r)) (pure none)
  finish env input before_sha
      (env.git.live_range input.storage_key input.to_branch input.from_branch) result
