-- ===== src/QuickActions/LabelCommands.antt =====
-- quick-actions.ts: the commands on an issue's labels and milestone.
use forge_hub.Base.{
  Act, Bool, List, Option, Text, [], add, and_then, codes, done, fetch, filter, find, get_or,
  if◌then◌else◌, includes, lower_unit, map, modify, none, not, pure, some, true, update, ◌++◌,
  ◌===◌, ◌>>◌, ◌∷◌, ◌>>=◌, text-Eq,
}
use forge_hub.QuickActions.Session.{
  emit, Setting, save, Session, RepoMilestone, RepoLabel, apply, reject, Fields,
}
use forge_hub.Gates.Checks.{is_text}

-- `loadAppliedLabels`: the set, read from the table the first time.
unfoldable pub load_known : Option (List Text) → Act Session (List Text)
load_known (some ids) = pure ids
load_known none = do
  ids ← fetch (λ s. s.label_rows)
  modify (λ s. record s { loaded = some ids })
  pure ids

unfoldable pub load_applied_labels : Act Session (List Text)
unfolding load_known
load_applied_labels faults s = load_known s.loaded faults s

-- `loadRepoLabels` and `loadMilestones`: a read the first time only.
unfoldable pub load_repo_labels : Setting → Act Session (List RepoLabel)
load_repo_labels e faults s =
    if s.labels_loaded
    then done e.labels faults s
    else and_then (fetch (λ s. e.labels) faults s)
        (λ ls. modify (λ s. record s { labels_loaded = true }) >> pure ls)

unfoldable pub load_milestones : Setting → Act Session (List RepoMilestone)
load_milestones e faults s =
    if s.milestones_loaded
    then done e.milestones faults s
    else and_then (fetch (λ s. e.milestones) faults s)
        (λ ms. modify (λ s. record s { milestones_loaded = true }) >> pure ms)

unfoldable pub find_label : Setting → Text → Act Session (Option RepoLabel)
unfolding load_repo_labels
find_label e name = do
  labels ← load_repo_labels e
  pure (find (λ (l : RepoLabel). map lower_unit l.name === map lower_unit name) labels)

abbrev loaded_ids : Session → List Text
loaded_ids s = get_or s.loaded []

-- `issueLabel.create`, and `current.add` after it.
unfoldable pub attach : Setting → Text → Act Session (Unit {0})
unfolding emit
attach e id = do
  update (λ s. record s { label_rows = s.label_rows ++ id ∷ [] })
  modify (λ s. record s { loaded = some (add (loaded_ids s) id) })
  emit e (codes "labeled")

-- `issueLabel.delete`, and `current.delete` after it.
unfoldable pub detach : Setting → Text → Act Session (Unit {0})
unfolding emit
detach e id = do
  update (λ s. record s { label_rows = filter (λ i. not (i === id)) s.label_rows })
  modify (λ s. record s { loaded = some (filter (λ i. not (i === id)) (loaded_ids s)) })
  emit e (codes "unlabeled")

abbrev has_loaded : Text → Session → Bool
has_loaded id s = includes (loaded_ids s) id

-- One name of `/label`, with the names added so far.
unfoldable pub label_found :
    Setting → Text → Text → Option RepoLabel → List Text → Act Session (List Text)
unfolding attach
label_found e label name none added faults s =
    done added faults
      (reject label (codes "Label “" ++ name ++ codes "” does not exist in this repository") s)
label_found e label name (some l) added faults s =
    if has_loaded l.id s
    then done added faults s
    else and_then (attach e l.id faults s) (λ a. pure (added ++ l.name ∷ []))

unfoldable pub label_all : Setting → Text → List Text → List Text → Act Session (List Text)
unfolding find_label label_found
label_all e label [] added = pure added
label_all e label (name ∷ names) added = do
  found ← find_label e name
  more ← label_found e label name found added
  label_all e label names more

-- `names.join(", ")`
abbrev join_comma : List Text → Text
join_comma [] = []
join_comma (n ∷ []) = n
join_comma (n ∷ m ∷ ns) = n ++ codes ", " ++ join_comma (m ∷ ns)

abbrev plural_labels : Text → List Text → Text
plural_labels verb [] = verb ++ codes " label "
plural_labels verb (n ∷ []) = verb ++ codes " label " ++ n
plural_labels verb (n ∷ m ∷ ns) = verb ++ codes " labels " ++ join_comma (n ∷ m ∷ ns)

-- A summary if any label was changed.
abbrev report : Text → Text → List Text → Act Session (Unit {0})
report verb label [] = pure tt
report verb label (n ∷ ns) = modify (apply label (plural_labels verb (n ∷ ns)))

unfoldable pub label_command : Setting → Text → List Text → Act Session (Unit {0})
unfolding load_applied_labels label_all
label_command e label [] = modify (reject label (codes "One or more label names are required"))
label_command e label (n ∷ ns) = do
  current ← load_applied_labels
  added ← label_all e label (n ∷ ns) []
  report (codes "Added") label added

unfoldable pub unlabel_found : Setting → Option RepoLabel → List Text → Act Session (List Text)
unfolding detach
unlabel_found e none removed faults s = done removed faults s
unlabel_found e (some l) removed faults s =
    if has_loaded l.id s
    then and_then (detach e l.id faults s) (λ a. pure (removed ++ l.name ∷ []))
    else done removed faults s

unfoldable pub unlabel_names : Setting → List Text → List Text → Act Session (List Text)
unfolding find_label unlabel_found
unlabel_names e [] removed = pure removed
unlabel_names e (name ∷ names) removed = do
  found ← find_label e name
  more ← unlabel_found e found removed
  unlabel_names e names more

unfoldable pub unlabel_each : Setting → List RepoLabel → List Text → Act Session (List Text)
unfolding unlabel_found
unlabel_each e [] removed = pure removed
unlabel_each e (l ∷ ls) removed = do more ← unlabel_found e (some l) removed; unlabel_each e ls more

-- With no names every applied label goes.
unfoldable pub unlabel_some : Setting → List Text → Act Session (List Text)
unfolding load_repo_labels unlabel_each unlabel_names
unlabel_some e [] = do labels ← load_repo_labels e; unlabel_each e labels []
unlabel_some e (n ∷ ns) = unlabel_names e (n ∷ ns) []

unfoldable pub unlabel_command : Setting → Text → List Text → Act Session (Unit {0})
unfolding load_applied_labels unlabel_some
unlabel_command e label names = do
  current ← load_applied_labels
  removed ← unlabel_some e names
  report (codes "Removed") label removed

unfoldable pub milestone_found :
    Setting → Text → Text → Fields → Option RepoMilestone → Act Session (Unit {0})
unfolding save emit
milestone_found e label wanted before none =
    modify
      (reject label (codes "Milestone “" ++ wanted ++ codes "” does not exist in this repository"))
milestone_found e label wanted before (some m) =
    if is_text before.milestone_id m.id
    then modify (apply label (codes "Already on milestone " ++ m.title))
    else (do
      save (λ f. record f { milestone_id = some m.id })
      emit e (codes "milestoned")
      modify (apply label (codes "Added to milestone " ++ m.title)))

unfoldable pub milestone_command : Setting → Text → Text → Fields → Act Session (Unit {0})
unfolding load_milestones milestone_found
milestone_command e label [] before =
    modify (reject label (codes "A milestone title is required (try `/milestone \"v1.0\"`)"))
milestone_command e label (c ∷ s) before = do
  milestones ← load_milestones e
  milestone_found e label (c ∷ s) before
      (find (λ (m : RepoMilestone). map lower_unit m.title === map lower_unit (c ∷ s)) milestones)

abbrev removed_text : Option RepoMilestone → Text
removed_text none = codes "Removed from milestone"
removed_text (some m) = codes "Removed from milestone " ++ m.title

unfoldable pub remove_milestone : Setting → Text → Option Text → Act Session (Unit {0})
unfolding load_milestones save emit
remove_milestone e label none = modify (apply label (codes "This issue is not on a milestone"))
remove_milestone e label (some id) = do
  milestones ← load_milestones e
  save (λ f. record f { milestone_id = none })
  emit e (codes "demilestoned")
  modify (apply label (removed_text (find (λ (m : RepoMilestone). m.id === id) milestones)))
