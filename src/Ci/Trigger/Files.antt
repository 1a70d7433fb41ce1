-- ===== src/Ci/Trigger/Files.antt =====
-- ci/workflows.ts: the workflow files of a commit; ci/trigger.ts: the parameters of a trigger.
use forge_hub.Base.{
  Bool, List, Option, Text, [], codes, drop, filter, if◌then◌else◌, lower_unit, map, none, reverse,
  some, split_on, starts_with, trim, ℕ, ◌||◌, ◌∷◌, text-Eq,
}
use forge_hub.Ci.Workflows.{CiEvent}

pub record TriggerParams : Type 0 where
  pub repo_id : Text
  pub storage_key : Text
  pub commit_sha : Text
  pub event : CiEvent
  pub ref : Option Text
  pub base_branch : Option Text
  pub pr_id : Option Text

pub record ChangedRef : Type 0 where
  pub branch : Text
  pub old_sha : Text
  pub new_sha : Text

pub record WorkflowFile : Type 0 where
  pub path : Text
  pub content : Text

-- `s.endsWith(suffix)`
abbrev pub ends_with_text : Text → Text → Bool
ends_with_text s suffix = starts_with (reverse s) (reverse suffix)

-- The loop over the paths; a file that git does not show is skipped.
unfoldable pub shown_files : (Text → Option Text) → List Text → List WorkflowFile
shown_files show_file [] = []
shown_files show_file (p ∷ ps) =
    let rest = shown_files show_file ps in
    elim (show_file p) [ none ↦ rest | some c ↦ record { path = p; content = c } ∷ rest ]

-- `ls_tree` and `show_file` are git's; `none`: the command fails.
unfoldable pub list_workflow_files_at_commit :
    Option Text → (Text → Option Text) → List WorkflowFile
unfolding split_on trim shown_files
list_workflow_files_at_commit none show_file = []
list_workflow_files_at_commit (some tree_out) show_file = shown_files show_file (
    filter (λ p. ends_with_text p (codes ".yml") || ends_with_text p (codes ".yaml"))
      (map trim (split_on 10 tree_out)))

abbrev last_of : List Text → Text
last_of [] = []
last_of (s ∷ []) = s
last_of (s ∷ t ∷ ss) = last_of (t ∷ ss)

abbrev drop_end : ℕ → Text → Text
drop_end n s = reverse (drop n (reverse s))

-- The base name of a path that does not end in a slash, without its extension.
unfoldable pub default_workflow_name : Text → Text
unfolding split_on
default_workflow_name path =
    let base = last_of (split_on 47 path) in
    let lower = map lower_unit base in
    if ends_with_text lower (codes ".yml")
    then drop_end 4 base
    else if ends_with_text lower (codes ".yaml")
    then drop_end 5 base
    else base
