-- ===== src/Ci/Tests.antt =====
-- Examples of ci/workflows.ts.
use forge_hub.Base.{
  In, List, Text, [], ap, arith, codes, done, false, inl, inr, insert, length, map, none, refl,
  some, split_on, state_after, sym, trim, true, ℕ, ◌<◌, ◌↔◌, ◌∙◌, ◌∷◌, ◌≡◌, ◌⊎◌, text-Eq,
}
use forge_hub.Ci.Workflows.Values.{
  Value, string, array, object, nil, cons, end, field, ok, strings_of, keys_of, get_field,
}
use forge_hub.Ci.Workflows.{
  ParsedWorkflow, push, parse_workflow, parse_root, extract_events, extract_branch_filter,
  to_string_list, parse_env_map, env_fields, jobs_of, parse_jobs, job_of, parse_job, merge_env,
  steps_of, parse_steps, step_of, step_with, trimmed_name, filter_of, branches_of, named_events,
  parse_document, checked_on, parse_on,
}
use forge_hub.Ci.Trigger.{
  CiSetting, RunRow, RunStatus, CiStore, completed, running, trigger_workflows, is_called_for,
  trigger_parsed, create_and_enqueue_run, prune_completed_runs, stale_ids,
}
use forge_hub.Ci.Trigger.Files.{
  TriggerParams, list_workflow_files_at_commit, shown_files, default_workflow_name,
}
use forge_hub.Ci.Glob.{glob_match, literals, branch_allowed}
use forge_hub.Ci.Glob.Laws.{GlobMatches, glob_match_iff}
use forge_hub.Ci.Workflows.WellFormed.{IsWellFormed}
use forge_hub.Ci.Trigger.Retention.{HasIds}
use forge_hub.Ci.Trigger.Pruning.{trigger_workflows-kept}
use forge_hub.Ci.Workflows.Jobs.{parse_workflow-IsWellFormed}
use forge_hub.Ci.Trigger.Bound.{IsWithin, prune_completed_runs-IsWithin}

one_segment : glob_match (codes "releases/*") (codes "releases/1.0") ≡ true
unfolding glob_match literals
one_segment = refl

two_segments : glob_match (codes "releases/*") (codes "releases/1.0/rc") ≡ false
unfolding glob_match literals
two_segments = refl

glob_match_iff_example :
    (glob_match (codes "releases/*") (codes "releases/1.0") ≡ true)
    ↔ GlobMatches (codes "releases/*") (codes "releases/1.0")
glob_match_iff_example = glob_match_iff (codes "releases/*") (codes "releases/1.0")

abbrev doc : Value
doc = object (
    field (codes "on")
      (object (
        field (codes "push")
          (object (field (codes "branches") (array (cons (string (codes " main ")) nil)) end)) end))
      (field (codes "env") (object (field (codes "A") (string (codes "1")) end)) (
        field (codes "jobs")
          (object (
            field (codes "build")
              (object (
                field (codes "steps")
                  (array (cons (object (field (codes "run") (string (codes "make")) end)) nil))
                  end))
              end))
          end)))

yaml_doc : Text → Text ⊎ Value
yaml_doc text = inr doc

abbrev build : ParsedWorkflow
build = record {
  name = codes "ci";
  events = push ∷ [];
  push_filter = some (codes "main" ∷ []);
  pull_request_filter = none;
  env = (codes "A", codes "1") ∷ [];
  jobs =
      record {
        id = codes "build";
        name = codes "build";
        steps = record { name = none; run = codes "make" } ∷ [];
        env = (codes "A", codes "1") ∷ [];
      }
      ∷ [];
}

build_parsed : parse_workflow yaml_doc [] (codes "ci") ≡ ok build
unfolding parse_workflow yaml_doc parse_root extract_events extract_branch_filter to_string_list
    strings_of keys_of get_field trim parse_env_map env_fields insert jobs_of parse_jobs job_of
    parse_job merge_env steps_of parse_steps step_of step_with trimmed_name filter_of branches_of
    named_events parse_document checked_on parse_on
build_parsed = refl

parse_workflow-IsWellFormed_example : IsWellFormed build
parse_workflow-IsWellFormed_example =
    parse_workflow-IsWellFormed yaml_doc [] (codes "ci") build build_parsed

abbrev ci : CiSetting
ci = record {
  is_enabled = true;
  cap = 0;
  ls_tree = λ key sha. some (codes ".forgehub/workflows/ci.yml\nREADME.md\n");
  show_file = λ key sha path. some [];
  yaml = yaml_doc;
  open_pulls = [];
}

abbrev params : TriggerParams
params = record {
  repo_id = codes "r";
  storage_key = codes "k";
  commit_sha = codes "c1";
  event = push;
  ref = some (codes "main");
  base_branch = none;
  pr_id = none;
}

abbrev run_row : ℕ → RunStatus → RunRow
run_row id status = record {
  id = id;
  repo_id = codes "r";
  commit_sha = codes "c0";
  trigger = codes "push";
  ref = none;
  pr_id = none;
  workflow_name = codes "ci";
  workflow_path = codes "ci.yml";
  status = status;
  conclusion = none;
  rerun_of_id = none;
  check_runs = [];
}

abbrev store : CiStore
store = record {
  runs = run_row 0 completed ∷ run_row 1 running ∷ [];
  next_id = 2;
  queue = [];
  log_dirs = 0 ∷ [];
}

abbrev run_ids : CiStore → List ℕ
run_ids w = map (λ (r : RunRow). r.id) w.runs

-- The completed run is pruned, and the new run stands behind the one that is running.
one_pruned : run_ids (state_after (trigger_workflows ci params [] store)) ≡ 1 ∷ 2 ∷ []
unfolding trigger_workflows yaml_doc parse_workflow parse_root extract_events extract_branch_filter
    to_string_list strings_of keys_of get_field trim parse_env_map env_fields insert jobs_of
    parse_jobs job_of parse_job merge_env steps_of parse_steps step_of step_with trimmed_name
    filter_of branches_of named_events parse_document checked_on parse_on
    list_workflow_files_at_commit split_on shown_files default_workflow_name is_called_for
    branch_allowed glob_match literals trigger_parsed create_and_enqueue_run
one_pruned = refl

store-HasIds : HasIds store
store-HasIds = (below, unique)
  where
    below : (r : RunRow) → In r store.runs → r.id < 2
    below r (inl e) = omega (arith, ap (λ (x : RunRow). x.id) e)
    below r (inr (inl e)) = omega (arith, ap (λ (x : RunRow). x.id) e)
    below r (inr (inr h)) = absurd h

    unique : (a b : RunRow) → In a store.runs → In b store.runs → a.id ≡ b.id → a ≡ b
    unique a b (inl p) (inl q) e = p ∙ sym q
    unique a b (inl p) (inr (inl q)) e =
        absurd (omega (arith, ap (λ (x : RunRow). x.id) p, ap (λ (x : RunRow). x.id) q, e))
    unique a b (inr (inl p)) (inl q) e =
        absurd (omega (arith, ap (λ (x : RunRow). x.id) p, ap (λ (x : RunRow). x.id) q, e))
    unique a b (inr (inl p)) (inr (inl q)) e = p ∙ sym q
    unique a b (inr (inr h)) j e = absurd h
    unique a b (inl p) (inr (inr h)) e = absurd h
    unique a b (inr (inl p)) (inr (inr h)) e = absurd h

trigger_workflows-kept_example :
    In
      (run_row 1 running)
      (state_after (trigger_workflows ci params (false ∷ true ∷ []) store)).runs
trigger_workflows-kept_example =
    trigger_workflows-kept ci params (false ∷ true ∷ []) store (run_row 1 running) store-HasIds
      (inr (inl refl)) refl

prune_completed_runs-IsWithin_example :
    IsWithin 0 (codes "r") store (prune_completed_runs 0 (codes "r") (false ∷ true ∷ []) store)
    × ((v : CiStore) × (prune_completed_runs 0 (codes "r") [] store
          ≡ done (length (stale_ids 0 (codes "r") store)) [] v))
prune_completed_runs-IsWithin_example =
    prune_completed_runs-IsWithin 0 (codes "r") (false ∷ true ∷ []) store
