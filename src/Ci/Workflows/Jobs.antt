-- ===== src/Ci/Workflows/Jobs.antt =====
-- ci/workflows.ts: the variables and jobs of a workflow that the parser returns.
use forge_hub.Base.{
  ===-self, All, Bool-cases, List, Option, Text, [], codes, if◌then◌else◌, inl, inr, insert, lookup,
  lookup-insert, none, refl, some, subst, sym, ◌===◌, ◌∙◌, ◌∷◌, ◌≡◌, ◌≢◌, ◌⊎◌, text-Eq,
}
use forge_hub.Ci.Workflows.Values.{
  Value, nothing, scalar, string, array, object, Fields, end, field, ok, >>=-ok, get_field,
  as_object,
}
use forge_hub.Ci.Workflows.{
  WorkflowJob, ParsedWorkflow, push, pull_request, merge_env, parse_job, job_of, parse_jobs,
  jobs_of, parse_on, checked_on, parse_document, parse_workflow, parse_root, parse_env_map, parsed,
  steps_of,
}
use forge_hub.Ci.Workflows.WellFormed.{
  IsWellFormed, IsWellFormedJob, ok-injective, steps_of-IsRunnable, extract_branch_filter-IsFilter,
}

-- Variables.
lookup-insert_kept :
    (k j v : Text) (m : List (Text × Text)) → lookup j m ≢ none → lookup j (insert k v m) ≢ none
lookup-insert_kept k j v m h e = elim (Bool-cases (k === j)) [
  | inl t ↦ some-none (sym (lookup-insert k j v m ∙ rw t refl) ∙ e)
  | inr f ↦ h (sym (lookup-insert k j v m ∙ rw f refl) ∙ e)
]
  where
    some-none : some v ≡ none → ⊥
    some-none e = cc

lookup-merge_env :
    (a b : List (Text × Text)) (k : Text) → lookup k a ≢ none → lookup k (merge_env a b) ≢ none
unfolding merge_env
lookup-merge_env a [] k h = h
lookup-merge_env a ((j, v) ∷ b) k h =
    lookup-merge_env (insert j v a) b k (lookup-insert_kept j k v a h)

variables_found : (m : List (Text × Text)) → All (λ (v : Text × Text). lookup v.0 m ≢ none) m
unfolding lookup
variables_found [] = tt
variables_found ((j, w) ∷ m) =
    (λ e. absurd (cc (rw (===-self j) at e)), later m (variables_found m))
  where
    later :
        (n : List (Text × Text))
        → All (λ (v : Text × Text). lookup v.0 m ≢ none) n
        → All (λ (v : Text × Text). (if j === v.0 then some w else lookup v.0 m) ≢ none) n
    later [] h = tt
    later ((k, u) ∷ n) (h, hs) = (
      elim (Bool-cases (j === k)) [ inl t ↦ rw t (λ e. absurd (cc)) | inr f ↦ rw f h ],
      later n hs,
    )

merged_variables :
    (a b n : List (Text × Text))
    → All (λ (v : Text × Text). lookup v.0 a ≢ none) n
    → All (λ (v : Text × Text). lookup v.0 (merge_env a b) ≢ none) n
merged_variables a b [] h = tt
merged_variables a b ((k, v) ∷ n) (h, hs) = (lookup-merge_env a b k h, merged_variables a b n hs)

-- Jobs.
parse_job-IsWellFormedJob :
    (workflow_env : List (Text × Text)) (job_id : Text) (fs : Fields) (job : WorkflowJob)
    → parse_job workflow_env job_id fs ≡ ok job
    → IsWellFormedJob workflow_env job
unfolding parse_job
parse_job-IsWellFormedJob workflow_env job_id fs job e =
    let (env, _, more) = >>=-ok (parse_env_map (get_field (codes "env") fs) _) _ job e in
    let (steps, stepped, last) =
      >>=-ok (steps_of job_id (get_field (codes "steps") fs)) _ job more in
    let (some_step, runnable) =
      steps_of-IsRunnable job_id (get_field (codes "steps") fs) steps stepped in
    subst (IsWellFormedJob workflow_env) (ok-injective _ job last) (
      some_step,
      runnable,
      merged_variables workflow_env env workflow_env (variables_found workflow_env),
    )

job_of-IsWellFormedJob :
    (workflow_env : List (Text × Text)) (job_id : Text) (raw : Option Fields) (job : WorkflowJob)
    → job_of workflow_env job_id raw ≡ ok job
    → IsWellFormedJob workflow_env job
unfolding job_of
job_of-IsWellFormedJob workflow_env job_id none job e = absurd (cc)
job_of-IsWellFormedJob workflow_env job_id (some fs) job e =
    parse_job-IsWellFormedJob workflow_env job_id fs job e

parse_jobs-IsWellFormedJob :
    (workflow_env : List (Text × Text)) (fs : Fields) (jobs : List WorkflowJob)
    → parse_jobs workflow_env fs ≡ ok jobs
    → All (IsWellFormedJob workflow_env) jobs × (jobs ≡ [] → fs ≡ end)
unfolding parse_jobs
parse_jobs-IsWellFormedJob workflow_env end jobs e =
    (subst (All (IsWellFormedJob workflow_env)) (ok-injective [] jobs e) tt, λ _. refl)
parse_jobs-IsWellFormedJob workflow_env (field job_id raw fs) jobs e =
    let (job, first, more) = >>=-ok (job_of workflow_env job_id (as_object (some raw))) _ jobs e in
    let (rest, others, last) = >>=-ok (parse_jobs workflow_env fs) _ jobs more in
    let same : job ∷ rest ≡ jobs = ok-injective (job ∷ rest) jobs last in
    (
      subst (All (IsWellFormedJob workflow_env)) same (
        job_of-IsWellFormedJob workflow_env job_id (as_object (some raw)) job first,
        (parse_jobs-IsWellFormedJob workflow_env fs rest others).0,
      ),
      λ empty. absurd (cc),
    )

jobs_of-IsWellFormedJob :
    (workflow_env : List (Text × Text)) (fs : Option Fields) (jobs : List WorkflowJob)
    → jobs_of workflow_env fs ≡ ok jobs
    → (jobs ≢ []) × All (IsWellFormedJob workflow_env) jobs
unfolding jobs_of
jobs_of-IsWellFormedJob workflow_env none jobs e = absurd (cc)
jobs_of-IsWellFormedJob workflow_env (some end) jobs e = absurd (cc)
jobs_of-IsWellFormedJob workflow_env (some (field k v fs)) jobs e =
    let (h, empty) = parse_jobs-IsWellFormedJob workflow_env (field k v fs) jobs e in
    (λ q. field-ne-end k v fs (empty q), h)
  where
    field-ne-end : (k : Text) (v : Value) (fs : Fields) → field k v fs ≡ end → ⊥
    field-ne-end k v fs e = cc

-- The document.
parse_on-IsWellFormed :
    (default_name : Text) (root : Fields) (on : Value) (w : ParsedWorkflow)
    → parse_on default_name root on ≡ ok w
    → IsWellFormed w
unfolding parse_on
parse_on-IsWellFormed default_name root on w e =
    let (env, _, more) = >>=-ok (parse_env_map (get_field (codes "env") root) _) _ w e in
    let (jobs, parsed, last) =
      >>=-ok (jobs_of env (as_object (get_field (codes "jobs") root))) _ w more in
    let (some_job, good) =
      jobs_of-IsWellFormedJob env (as_object (get_field (codes "jobs") root)) jobs parsed in
    subst IsWellFormed (ok-injective _ w last) (
      some_job,
      good,
      extract_branch_filter-IsFilter on push,
      extract_branch_filter-IsFilter on pull_request,
    )

root_on-IsWellFormed :
    (default_name : Text) (root : Fields) (on : Option Value) (w : ParsedWorkflow)
    → checked_on default_name root on ≡ ok w
    → IsWellFormed w
unfolding checked_on
root_on-IsWellFormed default_name root none w e = absurd (cc)
root_on-IsWellFormed default_name root (some nothing) w e = absurd (cc)
root_on-IsWellFormed default_name root (some scalar) w e =
    parse_on-IsWellFormed default_name root scalar w e
root_on-IsWellFormed default_name root (some (string s)) w e =
    parse_on-IsWellFormed default_name root (string s) w e
root_on-IsWellFormed default_name root (some (array xs)) w e =
    parse_on-IsWellFormed default_name root (array xs) w e
root_on-IsWellFormed default_name root (some (object fs)) w e =
    parse_on-IsWellFormed default_name root (object fs) w e

document-IsWellFormed :
    (default_name : Text) (doc : Value) (w : ParsedWorkflow)
    → parse_document default_name doc ≡ ok w
    → IsWellFormed w
unfolding parse_document parse_root
document-IsWellFormed default_name nothing w e = absurd (cc)
document-IsWellFormed default_name scalar w e = absurd (cc)
document-IsWellFormed default_name (string s) w e = absurd (cc)
document-IsWellFormed default_name (array xs) w e = absurd (cc)
document-IsWellFormed default_name (object fs) w e =
    root_on-IsWellFormed default_name fs (get_field (codes "on") fs) w e

-- Whatever the text and its YAML, a workflow that the parser returns has a job, every job has a step,
-- no step's command is blank, the variables of the workflow are variables of each job, and a branch
-- filter, where there is one, has a pattern and no empty pattern.
pub parse_workflow-IsWellFormed :
    (yaml : Text → Text ⊎ Value) (text default_name : Text) (w : ParsedWorkflow)
    → parse_workflow yaml text default_name ≡ ok w
    → IsWellFormed w
unfolding parse_workflow
parse_workflow-IsWellFormed yaml text default_name w e = result (yaml text) e
  where
    result : (r : Text ⊎ Value) → parsed default_name r ≡ ok w → IsWellFormed w
    result (inl message) e = absurd (cc)
    result (inr doc) e = document-IsWellFormed default_name doc w e
