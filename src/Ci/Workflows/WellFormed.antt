-- ===== src/Ci/Workflows/WellFormed.antt =====
-- ci/workflows.ts: what every workflow that the parser returns satisfies, and its filters and steps.
use forge_hub.Base.{
  All, Bool-cases, List, Option, Text, [], codes, false, filter, inl, inr, is_empty, lookup, map,
  none, not, refl, some, subst, trim, ℕ, ◌+◌, ◌∷◌, ◌≡◌, ◌≢◌, text-Eq,
}
use forge_hub.Ci.Workflows.Values.{
  Value, nothing, scalar, string, array, object, Fields, Items, nil, cons, ok, >>=-ok, strings_of,
  as_object, get_field,
}
use forge_hub.Ci.Workflows.{
  WorkflowStep, WorkflowJob, ParsedWorkflow, CiEvent, to_string_list, filter_of,
  extract_branch_filter, step_of, parse_steps, non_empty, branches_of, step_with, steps_of,
  event_name, step_error,
}

-- A filter has a pattern, and no blank one.
abbrev pub IsFilter : Option (List Text) → Type 0
IsFilter none = Unit
IsFilter (some patterns) = (patterns ≢ []) × All (λ p. is_empty p ≡ false) patterns

abbrev pub IsRunnable : WorkflowStep → Type 0
IsRunnable step = is_empty (trim step.run) ≡ false

-- A job has a step, no step is blank, and the variables of the workflow are variables of the job.
abbrev pub IsWellFormedJob : List (Text × Text) → WorkflowJob → Type 0
IsWellFormedJob workflow_env job =
    (job.steps ≢ [])
    × All IsRunnable job.steps
    × All (λ (v : Text × Text). lookup v.0 job.env ≢ none) workflow_env

abbrev pub IsWellFormed : ParsedWorkflow → Type 0
IsWellFormed w =
    (w.jobs ≢ [])
    × All (IsWellFormedJob w.env) w.jobs
    × IsFilter w.push_filter
    × IsFilter w.pull_request_filter

pub ok-injective : {A : Type 0} (a b : A) → ok a ≡ ok b → a ≡ b
ok-injective a b e = cc

-- Filters.
All-trimmed :
    (ss : List Text)
    → All (λ p. is_empty p ≡ false) (map trim (filter (λ s. not (is_empty (trim s))) ss))
All-trimmed [] = tt
All-trimmed (s ∷ ss) = elim (Bool-cases (is_empty (trim s))) [
  | inl t ↦ rw t (All-trimmed ss)
  | inr f ↦ rw f (f, All-trimmed ss)
]

non_empty-IsFilter : (ss : List Text) → All (λ p. is_empty p ≡ false) ss → IsFilter (non_empty ss)
non_empty-IsFilter [] h = tt
non_empty-IsFilter (s ∷ ss) h = (λ e. cc, h)

to_string_list-All : (v : Option Value) → All (λ p. is_empty p ≡ false) (to_string_list v)
unfolding to_string_list
to_string_list-All none = tt
to_string_list-All (some nothing) = tt
to_string_list-All (some scalar) = tt
to_string_list-All (some (object fs)) = tt
to_string_list-All (some (string s)) = elim (Bool-cases (is_empty (trim s))) [
  | inl t ↦ rw t tt
  | inr f ↦ rw f (f, tt)
]
to_string_list-All (some (array xs)) = All-trimmed (strings_of xs)

filter_of-IsFilter : (event : CiEvent) (fields : Option Fields) → IsFilter (filter_of event fields)
unfolding filter_of branches_of
filter_of-IsFilter event none = tt
filter_of-IsFilter event (some fields) = branches (as_object (get_field (event_name event) fields))
  where
    branches : (spec : Option Fields) → IsFilter (branches_of spec)
    branches none = tt
    branches (some spec) =
        non_empty-IsFilter (to_string_list (get_field (codes "branches") spec))
          (to_string_list-All (get_field (codes "branches") spec))

pub extract_branch_filter-IsFilter :
    (on : Value) (event : CiEvent) → IsFilter (extract_branch_filter on event)
unfolding extract_branch_filter
extract_branch_filter-IsFilter on event = filter_of-IsFilter event (as_object (some on))

-- Steps.
step_of-IsRunnable :
    (i : ℕ) (job_id : Text) (raw : Option Fields) (step : WorkflowStep)
    → step_of i job_id raw ≡ ok step
    → IsRunnable step
unfolding step_of step_with step_error
step_of-IsRunnable i job_id none step e = absurd (cc)
step_of-IsRunnable i job_id (some fs) step e = run (get_field (codes "run") fs) e
  where
    run : (v : Option Value) → step_with i job_id fs v ≡ ok step → IsRunnable step
    run none e = absurd (cc)
    run (some nothing) e = absurd (cc)
    run (some scalar) e = absurd (cc)
    run (some (array xs)) e = absurd (cc)
    run (some (object gs)) e = absurd (cc)
    run (some (string s)) e = elim (Bool-cases (is_empty (trim s))) [
      | inl t ↦ absurd (cc (rw t at e))
      | inr f ↦ subst IsRunnable (ok-injective _ step (rw f at e)) f
    ]

parse_steps-IsRunnable :
    (i : ℕ) (job_id : Text) (xs : Items) (steps : List WorkflowStep)
    → parse_steps i job_id xs ≡ ok steps
    → All IsRunnable steps × (steps ≡ [] → xs ≡ nil)
unfolding parse_steps
parse_steps-IsRunnable i job_id nil steps e =
    let none_left : [] ≡ steps = ok-injective [] steps e in
    (subst (All IsRunnable) none_left tt, λ _. refl)
parse_steps-IsRunnable i job_id (cons x xs) steps e =
    let (step, first, more) = >>=-ok (step_of i job_id (as_object (some x))) _ steps e in
    let (rest, others, last) = >>=-ok (parse_steps (i + 1) job_id xs) _ steps more in
    let same : step ∷ rest ≡ steps = ok-injective (step ∷ rest) steps last in
    (
      subst (All IsRunnable) same (
        step_of-IsRunnable i job_id (as_object (some x)) step first,
        (parse_steps-IsRunnable (i + 1) job_id xs rest others).0,
      ),
      λ empty. absurd (cc),
    )

pub steps_of-IsRunnable :
    (job_id : Text) (v : Option Value) (steps : List WorkflowStep)
    → steps_of job_id v ≡ ok steps
    → (steps ≢ []) × All IsRunnable steps
unfolding steps_of
steps_of-IsRunnable job_id none steps e = absurd (cc)
steps_of-IsRunnable job_id (some nothing) steps e = absurd (cc)
steps_of-IsRunnable job_id (some scalar) steps e = absurd (cc)
steps_of-IsRunnable job_id (some (string s)) steps e = absurd (cc)
steps_of-IsRunnable job_id (some (object fs)) steps e = absurd (cc)
steps_of-IsRunnable job_id (some (array nil)) steps e = absurd (cc)
steps_of-IsRunnable job_id (some (array (cons x xs))) steps e =
    let (h, empty) = parse_steps-IsRunnable 0 job_id (cons x xs) steps e in
    (λ q. cons-ne-nil x xs (empty q), h)
  where
    cons-ne-nil : (x : Value) (xs : Items) → cons x xs ≡ nil → ⊥
    cons-ne-nil x xs e = cc
