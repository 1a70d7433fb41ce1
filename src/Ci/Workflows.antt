-- ===== src/Ci/Workflows.antt =====
-- ci/workflows.ts: the parser of workflow files. `parse` of the yaml package, from a text to a value or
-- an error, is a parameter.
pub mod Values
pub mod WellFormed
pub mod Jobs
use forge_hub.Base.{
  Bool, Option, Text, codes, filter, get_or, if◌then◌else◌, includes, inl, inr, insert, is_empty,
  none, not, show, some, trim, value, ℕ, ◌+◌, ◌⊎◌, text-Eq, List, ◌++◌, ◌∷◌, [], map,
}
use forge_hub.Ci.Workflows.Values.{
  Value, string, Fields, Items, cons, field, Result, ok, err, ◌>>=◌, keys_of, get_field, strings_of,
  as_object,
}

pub data CiEvent : Type 0 where
  push pull_request : CiEvent

pub record WorkflowStep : Type 0 where
  pub name : Option Text
  pub run : Text

pub record WorkflowJob : Type 0 where
  pub id : Text
  pub name : Text
  pub steps : List WorkflowStep
  pub env : List (Text × Text)

pub record ParsedWorkflow : Type 0 where
  pub name : Text
  pub events : List CiEvent
  pub push_filter : Option (List Text)
  pub pull_request_filter : Option (List Text)
  pub env : List (Text × Text)
  pub jobs : List WorkflowJob

abbrev pub event_name : CiEvent → Text
event_name push = codes "push"
event_name pull_request = codes "pull_request"

-- `KNOWN_EVENTS`
abbrev pub known_events : List CiEvent
known_events = push ∷ pull_request ∷ []

-- The names that `add` is called with.
unfoldable pub named_events : Value → List Text
unfolding strings_of keys_of
named_events Value.nothing = []
named_events Value.scalar = []
named_events (string s) = s ∷ []
named_events (Value.array xs) = strings_of xs
named_events (Value.object fs) = keys_of fs

unfoldable pub extract_events : Value → List CiEvent
unfolding named_events
extract_events on = filter (λ e. includes (named_events on) (event_name e)) known_events

abbrev pub is_blank : Text → Bool
is_blank s = is_empty (trim s)

unfoldable pub to_string_list : Option Value → List Text
unfolding is_blank strings_of trim
to_string_list none = []
to_string_list (some Value.nothing) = []
to_string_list (some Value.scalar) = []
to_string_list (some (Value.object fs)) = []
to_string_list (some (string s)) = if is_blank s then [] else trim s ∷ []
to_string_list (some (Value.array xs)) = map trim (filter (λ s. not (is_blank s)) (strings_of xs))

-- `list.length > 0 ? list : null`
abbrev pub non_empty : List Text → Option (List Text)
non_empty [] = none
non_empty (s ∷ ss) = some (s ∷ ss)

unfoldable pub branches_of : Option Fields → Option (List Text)
unfolding to_string_list get_field
branches_of none = none
branches_of (some spec) = non_empty (to_string_list (get_field (codes "branches") spec))

unfoldable pub filter_of : CiEvent → Option Fields → Option (List Text)
unfolding branches_of get_field
filter_of event none = none
filter_of event (some fields) = branches_of (as_object (get_field (event_name event) fields))

unfoldable pub extract_branch_filter : Value → CiEvent → Option (List Text)
unfolding filter_of
extract_branch_filter on event = filter_of event (as_object (some on))

-- `env` values, with the error's context before `'env'`.
unfoldable pub env_fields : Text → List (Text × Text) → Fields → Result (List (Text × Text))
unfolding insert
env_fields context out Fields.end = ok out
env_fields context out (field k (string v) fs) = env_fields context (insert k v out) fs
env_fields context out (field k v fs) =
    err (context ++ (codes " 'env' value for '" ++ (k ++ codes "' must be a string.")))

unfoldable pub parse_env_map : Option Value → Text → Result (List (Text × Text))
unfolding env_fields
parse_env_map none context = ok []
parse_env_map (some Value.nothing) context = ok []
parse_env_map (some (Value.object fs)) context = env_fields context [] fs
parse_env_map (some v) context =
    err (context ++ codes " 'env' must be a mapping of string keys to string values.")

-- `{ ...a, ...b }`
unfoldable pub merge_env : List (Text × Text) → List (Text × Text) → List (Text × Text)
unfolding insert
merge_env a [] = a
merge_env a ((k, v) ∷ b) = merge_env (insert k v a) b

-- `typeof v === "string" && v.trim() ? v.trim() : undefined`
unfoldable pub trimmed_name : Option Value → Option Text
unfolding trim
trimmed_name (some (string s)) = let t = trim s in if is_empty t then none else some t
trimmed_name v = none

unfoldable pub step_error : ℕ → Text → Result WorkflowStep
unfolding show
step_error i job_id = err (
    codes "Step "
    ++ (show (i + 1)
        ++ (codes " of job '" ++ (job_id ++ codes "' must have a non-empty 'run' command."))))

unfoldable pub step_with : ℕ → Text → Fields → Option Value → Result WorkflowStep
unfolding is_blank get_field trimmed_name step_error
step_with i job_id step (some (string run)) =
    if is_blank run
    then step_error i job_id
    else ok (record { name = trimmed_name (get_field (codes "name") step); run = run })
step_with i job_id step v = step_error i job_id

unfoldable pub step_of : ℕ → Text → Option Fields → Result WorkflowStep
unfolding step_with get_field step_error
step_of i job_id none = step_error i job_id
step_of i job_id (some step) = step_with i job_id step (get_field (codes "run") step)

-- The loop over the steps.
unfoldable pub parse_steps : ℕ → Text → Items → Result (List WorkflowStep)
unfolding step_of
parse_steps i job_id Items.nil = ok []
parse_steps i job_id (cons raw_step xs) =
    let rest = parse_steps (i + 1) job_id xs in
    do step ← step_of i job_id (as_object (some raw_step)); steps ← rest; ok (step ∷ steps)

unfoldable pub steps_of : Text → Option Value → Result (List WorkflowStep)
unfolding parse_steps
steps_of job_id (some (Value.array (cons x xs))) = parse_steps 0 job_id (cons x xs)
steps_of job_id v =
    err (codes "Job '" ++ (job_id ++ codes "' must define a non-empty 'steps' list."))

unfoldable pub parse_job : List (Text × Text) → Text → Fields → Result WorkflowJob
unfolding parse_env_map merge_env steps_of get_field trimmed_name
parse_job workflow_env job_id job = do
  env ← parse_env_map (get_field (codes "env") job) (codes "Job '" ++ (job_id ++ codes "'"))
  steps ← steps_of job_id (get_field (codes "steps") job)
  ok (record {
    id = job_id;
    name = get_or (trimmed_name (get_field (codes "name") job)) job_id;
    steps = steps;
    env = merge_env workflow_env env;
  })

unfoldable pub job_of : List (Text × Text) → Text → Option Fields → Result WorkflowJob
unfolding parse_job
job_of workflow_env job_id none = err (codes "Job '" ++ (job_id ++ codes "' must be a mapping."))
job_of workflow_env job_id (some job) = parse_job workflow_env job_id job

-- The loop over the jobs.
unfoldable pub parse_jobs : List (Text × Text) → Fields → Result (List WorkflowJob)
unfolding job_of
parse_jobs workflow_env Fields.end = ok []
parse_jobs workflow_env (field job_id raw_job fs) =
    let rest = parse_jobs workflow_env fs in
    do job ← job_of workflow_env job_id (as_object (some raw_job)); jobs ← rest; ok (job ∷ jobs)

unfoldable pub jobs_of : List (Text × Text) → Option Fields → Result (List WorkflowJob)
unfolding parse_jobs
jobs_of workflow_env none = err (codes "Workflow must define a 'jobs' mapping.")
jobs_of workflow_env (some Fields.end) = err (codes "Workflow defines no jobs.")
jobs_of workflow_env (some (field k v fs)) = parse_jobs workflow_env (field k v fs)

unfoldable pub parse_on : Text → Fields → Value → Result ParsedWorkflow
unfolding extract_events extract_branch_filter parse_env_map jobs_of get_field trimmed_name
parse_on default_name root on = do
  env ← parse_env_map (get_field (codes "env") root) (codes "Workflow")
  jobs ← jobs_of env (as_object (get_field (codes "jobs") root))
  ok (record {
    name = get_or (trimmed_name (get_field (codes "name") root)) default_name;
    events = extract_events on;
    push_filter = extract_branch_filter on push;
    pull_request_filter = extract_branch_filter on pull_request;
    env = env;
    jobs = jobs;
  })

unfoldable pub checked_on : Text → Fields → Option Value → Result ParsedWorkflow
unfolding parse_on
checked_on default_name root none = err (codes "Workflow is missing the required 'on' field.")
checked_on default_name root (some Value.nothing) =
    err (codes "Workflow is missing the required 'on' field.")
checked_on default_name root (some on) = parse_on default_name root on

unfoldable pub parse_root : Text → Fields → Result ParsedWorkflow
unfolding checked_on get_field
parse_root default_name root = checked_on default_name root (get_field (codes "on") root)

unfoldable pub parse_document : Text → Value → Result ParsedWorkflow
unfolding parse_root
parse_document default_name Value.nothing = err (codes "Workflow file is empty.")
parse_document default_name (Value.object root) = parse_root default_name root
parse_document default_name v = err (codes "Workflow must be a YAML mapping at the top level.")

abbrev pub parsed : Text → Text ⊎ Value → Result ParsedWorkflow
parsed default_name (inl message) = err (codes "YAML parse error: " ++ message)
parsed default_name (inr doc) = parse_document default_name doc

-- parseWorkflow: what parseWorkflowYaml returns or throws. The result of `yaml` is an error's message
-- or a value.
unfoldable pub parse_workflow : (Text → Text ⊎ Value) → Text → Text → Result ParsedWorkflow
unfolding parse_document
parse_workflow yaml text default_name = parsed default_name (yaml text)
