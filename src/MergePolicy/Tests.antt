-- ===== src/MergePolicy/Tests.antt =====
-- merge-policy.ts: columns that parse.
use forge_hub.Base.{Text, [], codes, none, refl, some, ◌∷◌, ◌≡◌, text-Eq}
use forge_hub.MergePolicy.{squash, rebase, repo_merge_policy, method-Eq, is_merge_method}
use forge_hub.MergePolicy.Web.{
  resolve_initial_method-repo_merge_policy, holds, StorageLike, resolve_initial_method,
  starting_method, get_item, merge_method_storage_key,
}
use forge_hub.MergePolicy.Laws.{repo_merge_policy-IsWellFormed, IsWellFormed}

abbrev methods_column : Text
methods_column = codes " rebase,octopus,squash , squash"

repo_merge_policy-column :
    repo_merge_policy (some methods_column) (some (codes "merge"))
    ≡ record { allowed_methods = squash ∷ rebase ∷ []; default_method = squash }
unfolding repo_merge_policy
repo_merge_policy-column = refl

repo_merge_policy-IsWellFormed_example :
    IsWellFormed (repo_merge_policy (some methods_column) (some (codes "merge")))
repo_merge_policy-IsWellFormed_example =
    repo_merge_policy-IsWellFormed (some methods_column) (some (codes "merge"))

abbrev remembers_rebase : StorageLike
remembers_rebase = some (λ key. holds (some (codes "rebase")))

resolve_initial_method-rebase :
    resolve_initial_method
      (codes "ada")
      (codes "engine")
      (some (repo_merge_policy (some methods_column) none))
      remembers_rebase
    ≡ rebase
unfolding resolve_initial_method repo_merge_policy
resolve_initial_method-rebase = refl

resolve_initial_method-repo_merge_policy_example :
    resolve_initial_method
      (codes "ada")
      (codes "engine")
      (some (repo_merge_policy (some methods_column) none))
      remembers_rebase
    ≡ starting_method (repo_merge_policy (some methods_column) none) (
        is_merge_method
          (get_item remembers_rebase (merge_method_storage_key (codes "ada") (codes "engine"))))
resolve_initial_method-repo_merge_policy_example =
    resolve_initial_method-repo_merge_policy (some methods_column) none (codes "ada")
      (codes "engine") remembers_rebase
