-- ===== src/Ci/Trigger.antt =====
-- ci/trigger.ts and ci/retention.ts: the runs that a commit's workflow files call for, and the pruning of
-- old ones. Calls of the database and of the file system may throw; git, the yaml package and the cap
-- are the Setting.
pub mod Files
pub mod Retention
pub mod Pruning
pub mod Bound
use forge_hub.Base.{
  Act, Bool, List, Option, Text, [], any, call, catch, codes, drop, false, fetch, filter,
  if◌then◌else◌, insert, length, lookup, map, modify, none, not, pure, reverse, some, true, update,
  ℕ, ◌&&◌, ◌++◌, ◌+◌, ◌===◌, ◌==◌, ◌>>=◌, ◌>>◌, ◌∷◌, ◌⊎◌, text-Eq,
}
use forge_hub.Ci.Workflows.{
  CiEvent, push, pull_request, ParsedWorkflow, WorkflowJob, event_name, parse_workflow,
}
use forge_hub.Ci.Workflows.Values.{Value, Result, ok, err}
use forge_hub.Ci.Trigger.Files.{
  WorkflowFile, TriggerParams, ChangedRef, default_workflow_name, list_workflow_files_at_commit,
}
use forge_hub.Ci.Glob.{branch_allowed}

pub data RunStatus : Type 0 where
  queued running completed : RunStatus

-- A row of `checkRun`.
pub record CheckRow : Type 0 where
  pub job_id : Text
  pub job_name : Text
  pub status : RunStatus
  pub conclusion : Option Text

-- A row of `workflowRun`.
pub record RunRow : Type 0 where
  pub id : ℕ
  pub repo_id : Text
  pub commit_sha : Text
  pub trigger : Text
  pub ref : Option Text
  pub pr_id : Option Text
  pub workflow_name : Text
  pub workflow_path : Text
  pub status : RunStatus
  pub conclusion : Option Text
  pub rerun_of_id : Option ℕ
  pub check_runs : List CheckRow

-- The rows in the order of their creation, the id of the next one, the queue of the runner, and the
-- runs that have a directory of logs.
pub record CiStore : Type 0 where
  pub runs : List RunRow
  pub next_id : ℕ
  pub queue : List ℕ
  pub log_dirs : List ℕ

-- A row of `pullRequest` that is open.
pub record PullHead : Type 0 where
  pub id : Text
  pub repo_id : Text
  pub from_branch : Text
  pub to_branch : Text

pub record CiSetting : Type 0 where
  pub is_enabled : Bool
  pub cap : ℕ
  pub ls_tree : Text → Text → Option Text
  pub show_file : Text → Text → Text → Option Text
  pub yaml : Text → Text ⊎ Value
  pub open_pulls : List PullHead

-- `workflowRun.create`: the row gets a new id.
abbrev pub create_run : (ℕ → RunRow) → CiStore → CiStore × ℕ
create_run row w =
    (record w { runs = w.runs ++ row w.next_id ∷ []; next_id = w.next_id + 1 }, w.next_id)

abbrev pub enqueue_run : ℕ → CiStore → CiStore
enqueue_run id w = record w { queue = w.queue ++ id ∷ [] }

abbrev pub is_completed : RunStatus → Bool
is_completed completed = true
is_completed queued = false
is_completed running = false

abbrev pub is_done_in : Text → RunRow → Bool
is_done_in repo_id r = r.repo_id === repo_id && is_completed r.status

-- The ids of the completed runs beyond the newest `cap`.
abbrev pub stale_ids : ℕ → Text → CiStore → List ℕ
stale_ids cap repo_id w =
    map (λ (r : RunRow). r.id) (drop cap (reverse (filter (is_done_in repo_id) w.runs)))

abbrev pub remove_dir : ℕ → CiStore → CiStore
remove_dir id w = record w { log_dirs = filter (λ d. not (d == id)) w.log_dirs }

-- The loop that removes the directories of logs.
unfoldable pub remove_logs : List ℕ → Act CiStore (Unit {0})
remove_logs [] = pure tt
remove_logs (id ∷ ids) = catch (update (remove_dir id)) (pure tt) >> remove_logs ids

-- `deleteMany({ where: { id: { in: ids } } })`
abbrev pub delete_runs : List ℕ → CiStore → CiStore
delete_runs ids w = record w {
  runs = filter (λ (r : RunRow). not (any (λ id. id == r.id) ids)) w.runs;
}

abbrev pub prune_ids : List ℕ → Act CiStore ℕ
prune_ids [] = pure 0
prune_ids (id ∷ ids) = do
  remove_logs (id ∷ ids)
  update (delete_runs (id ∷ ids))
  pure (length (id ∷ ids))

unfoldable pub prune_completed_runs : ℕ → Text → Act CiStore ℕ
unfolding remove_logs
prune_completed_runs cap repo_id = do stale ← fetch (stale_ids cap repo_id); prune_ids stale

abbrev queued_check : WorkflowJob → CheckRow
queued_check j = record { job_id = j.id; job_name = j.name; status = queued; conclusion = none }

abbrev pub queued_run : TriggerParams → Text → ParsedWorkflow → ℕ → RunRow
queued_run p path w id = record {
  id = id;
  repo_id = p.repo_id;
  commit_sha = p.commit_sha;
  trigger = event_name p.event;
  ref = p.ref;
  pr_id = p.pr_id;
  workflow_name = w.name;
  workflow_path = path;
  status = queued;
  conclusion = none;
  rerun_of_id = none;
  check_runs = map queued_check w.jobs;
}

-- What follows the creation of a run: it is queued, and old ones are pruned.
unfoldable pub enqueue_and_prune : CiSetting → Text → ℕ → Act CiStore (Unit {0})
unfolding prune_completed_runs
enqueue_and_prune env repo_id id = do
  modify (enqueue_run id)
  catch (prune_completed_runs env.cap repo_id >> pure tt) (pure tt)

unfoldable pub create_and_enqueue_run :
    CiSetting → TriggerParams → Text → ParsedWorkflow → Act CiStore (Unit {0})
unfolding enqueue_and_prune
create_and_enqueue_run env p path w = do
  id ← call (create_run (queued_run p path w))
  enqueue_and_prune env p.repo_id id

abbrev rerun_check : CheckRow → CheckRow
rerun_check c = record {
  job_id = c.job_id;
  job_name = c.job_name;
  status = queued;
  conclusion = none;
}

abbrev pub rerun_of : RunRow → ℕ → RunRow
rerun_of source id = record source {
  id = id;
  status = queued;
  conclusion = none;
  rerun_of_id = some source.id;
  check_runs = map rerun_check source.check_runs;
}

unfoldable pub create_rerun : CiSetting → RunRow → Act CiStore ℕ
unfolding enqueue_and_prune
create_rerun env source = do
  id ← call (create_run (rerun_of source))
  enqueue_and_prune env source.repo_id id
  pure id

abbrev pub failed_run : TriggerParams → Text → ℕ → RunRow
unfolding default_workflow_name
failed_run p path id = record {
  id = id;
  repo_id = p.repo_id;
  commit_sha = p.commit_sha;
  trigger = event_name p.event;
  ref = p.ref;
  pr_id = p.pr_id;
  workflow_name = default_workflow_name path;
  workflow_path = path;
  status = completed;
  conclusion = some (codes "failure");
  rerun_of_id = none;
  check_runs =
      record {
        job_id = codes "workflow";
        job_name = codes "workflow";
        status = completed;
        conclusion = some (codes "failure");
      }
      ∷ [];
}

abbrev pub add_dir : ℕ → CiStore → CiStore
add_dir id w = record w { log_dirs = w.log_dirs ++ id ∷ [] }

-- The text of the log, and its path in the row, are not part of the store: writing them only may throw.
unfoldable pub record_parse_failure : TriggerParams → Text → Act CiStore (Unit {0})
record_parse_failure p path = do
  id ← call (create_run (failed_run p path))
  update (add_dir id)
  update (λ w. w)
  update (λ w. w)

-- Whether a workflow is for the event, on the branch that its filter is about.
unfoldable pub is_called_for : TriggerParams → ParsedWorkflow → Bool
unfolding branch_allowed
is_called_for p w = any (λ e. event_name e === event_name p.event) w.events && elim p.event [
  | push ↦ branch_allowed w.push_filter p.ref
  | pull_request ↦ branch_allowed w.pull_request_filter p.base_branch
]

unfoldable pub trigger_parsed :
    CiSetting → TriggerParams → Text → Result ParsedWorkflow → Act CiStore (Unit {0})
unfolding record_parse_failure create_and_enqueue_run is_called_for
trigger_parsed env p path (err message) = record_parse_failure p path
trigger_parsed env p path (ok w) =
    if is_called_for p w then create_and_enqueue_run env p path w else pure tt

-- The loop over the workflow files.
unfoldable pub trigger_files :
    CiSetting → TriggerParams → List WorkflowFile → Act CiStore (Unit {0})
unfolding trigger_parsed parse_workflow default_workflow_name
trigger_files env p [] = pure tt
trigger_files env p (f ∷ fs) =
    trigger_parsed env p f.path (parse_workflow env.yaml f.content (default_workflow_name f.path))
    >> trigger_files env p fs

abbrev pub files_of : CiSetting → TriggerParams → List WorkflowFile
files_of env p =
    list_workflow_files_at_commit (env.ls_tree p.storage_key p.commit_sha)
      (env.show_file p.storage_key p.commit_sha)

unfoldable pub trigger_workflows : CiSetting → TriggerParams → Act CiStore (Unit {0})
unfolding trigger_files list_workflow_files_at_commit
trigger_workflows env p = if env.is_enabled then trigger_files env p (files_of env p) else pure tt

-- The loop of triggerWorkflowsForPush.
unfoldable pub push_refs : CiSetting → Text → Text → List ChangedRef → Act CiStore (Unit {0})
unfolding trigger_workflows
push_refs env repo_id storage_key [] = pure tt
push_refs env repo_id storage_key (c ∷ cs) =
    trigger_workflows env (record {
      repo_id = repo_id;
      storage_key = storage_key;
      commit_sha = c.new_sha;
      event = push;
      ref = some c.branch;
      base_branch = none;
      pr_id = none;
    })
    >> push_refs env repo_id storage_key cs

unfoldable pub trigger_workflows_for_push :
    CiSetting → Text → Text → List ChangedRef → Act CiStore (Unit {0})
unfolding push_refs
trigger_workflows_for_push env repo_id storage_key changed =
    if env.is_enabled then push_refs env repo_id storage_key changed else pure tt

-- `new Map(changed.map((c) => [c.branch, c]))`
abbrev by_branch : List (Text × ChangedRef) → List ChangedRef → List (Text × ChangedRef)
unfolding insert
by_branch m [] = m
by_branch m (c ∷ cs) = by_branch (insert c.branch c m) cs

abbrev sync_head : CiSetting → Text → PullHead → Option ChangedRef → Act CiStore (Unit {0})
sync_head env storage_key pr none = pure tt
sync_head env storage_key pr (some c) = trigger_workflows env (record {
  repo_id = pr.repo_id;
  storage_key = storage_key;
  commit_sha = c.new_sha;
  event = pull_request;
  ref = some pr.from_branch;
  base_branch = some pr.to_branch;
  pr_id = some pr.id;
})

-- The loop over the open pull requests whose head moved.
unfoldable pub sync_pulls :
    CiSetting → Text → List (Text × ChangedRef) → List PullHead → Act CiStore (Unit {0})
unfolding lookup trigger_workflows
sync_pulls env storage_key heads [] = pure tt
sync_pulls env storage_key heads (pr ∷ prs) =
    sync_head env storage_key pr (lookup pr.from_branch heads)
    >> sync_pulls env storage_key heads prs

abbrev is_moved : Text → List (Text × ChangedRef) → PullHead → Bool
is_moved repo_id heads pr =
    pr.repo_id === repo_id && any (λ (h : Text × ChangedRef). h.0 === pr.from_branch) heads

unfoldable pub trigger_workflows_for_pr_sync :
    CiSetting → Text → Text → List ChangedRef → Act CiStore (Unit {0})
unfolding sync_pulls by_branch
trigger_workflows_for_pr_sync env repo_id storage_key changed =
    let heads = by_branch [] changed in
    if env.is_enabled
    then fetch (λ w. filter (is_moved repo_id heads) env.open_pulls)
      >>= sync_pulls env storage_key heads
    else pure tt

unfoldable pub trigger_workflows_for_pr_open :
    CiSetting → Text → Text → Text → Text → Text → Option Text → Act CiStore (Unit {0})
unfolding trigger_workflows
trigger_workflows_for_pr_open env repo_id storage_key pr_id from_branch head_sha base_branch =
    if env.is_enabled
    then trigger_workflows env (record {
      repo_id = repo_id;
      storage_key = storage_key;
      commit_sha = head_sha;
      event = pull_request;
      ref = some from_branch;
      base_branch = base_branch;
      pr_id = some pr_id;
    })
    else pure tt
