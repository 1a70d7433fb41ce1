-- ===== src/MergePolicy/Web.antt =====
-- apps/web/src/pages/repo/pulls/mergeMethods.ts: the method that the merge box starts on.
use forge_hub.MergePolicy.Laws.{IsWellFormed, repo_merge_policy-IsWellFormed}
use forge_hub.Base.{
  Bool, List, Option, Text, [], any, arith, codes, filter, get_or, if◌then◌else◌, includes, none,
  refl, some, ◌++◌, ◌===◌, ◌∷◌, ◌≡◌, ◌≢◌, text-Eq,
}
use forge_hub.MergePolicy.{
  method-Eq, merge, squash, rebase, MergeMethod, is_merge_method, MergePolicy, repo_merge_policy,
}

pub record MergeMethodOption : Type 0 where
  pub method : MergeMethod
  pub button_label : Text
  pub menu_label : Text

abbrev merge_method_options : List MergeMethodOption
merge_method_options =
    record {
      method = merge;
      button_label = codes "Merge pull request";
      menu_label = codes "Create a merge commit";
    }
    ∷ record {
      method = squash;
      button_label = codes "Squash and merge";
      menu_label = codes "Squash and merge";
    }
    ∷ record {
      method = rebase;
      button_label = codes "Rebase and merge";
      menu_label = codes "Rebase and merge";
    }
    ∷ []

unfoldable pub merge_method_storage_key : Text → Text → Text
merge_method_storage_key handle repo_name = codes "fh_merge_method:" ++ handle ++ b'/' ∷ repo_name

-- What `getItem` does: a read may throw, or find nothing.
pub data Stored : Type 0 where
  throws : Stored
  holds : Option Text → Stored

-- No storage is `none`.
abbrev pub StorageLike : Type 0
StorageLike = Option (Text → Stored)

abbrev stored_text : Stored → Option Text
stored_text throws = none
stored_text (holds raw) = raw

abbrev pub get_item : StorageLike → Text → Option Text
get_item none key = none
get_item (some read) key = stored_text (read key)

unfoldable pub read_merge_method : Text → Text → StorageLike → MergeMethod
unfolding merge_method_storage_key is_merge_method get_item
read_merge_method handle repo_name storage =
    get_or (is_merge_method (get_item storage (merge_method_storage_key handle repo_name))) merge

-- An absent or an empty policy offers all methods.
unfoldable pub allowed_merge_options : Option MergePolicy → List MergeMethodOption
allowed_merge_options none = merge_method_options
allowed_merge_options (some policy) = elim policy.allowed_methods [
  | [] ↦ merge_method_options
  | _ ↦ filter (λ o. includes policy.allowed_methods o.method) merge_method_options
]

-- `options[0].method`
abbrev first_method : List MergeMethodOption → MergeMethod
first_method [] = merge
first_method (o ∷ os) = o.method

abbrev offers : List MergeMethodOption → MergeMethod → Bool
offers options m = any (λ (o : MergeMethodOption). o.method === m) options

abbrev default_of : Option MergePolicy → List MergeMethodOption → MergeMethod
default_of none options = first_method options
default_of (some policy) options =
    if offers options policy.default_method then policy.default_method else first_method options

abbrev remembered_or :
    Option MergeMethod → Option MergePolicy → List MergeMethodOption → MergeMethod
remembered_or none policy options = default_of policy options
remembered_or (some m) policy options = if offers options m then m else default_of policy options

unfoldable pub resolve_initial_method : Text → Text → Option MergePolicy → StorageLike → MergeMethod
unfolding allowed_merge_options merge_method_storage_key is_merge_method get_item
resolve_initial_method handle repo_name policy storage =
    remembered_or (is_merge_method (get_item storage (merge_method_storage_key handle repo_name)))
      policy (allowed_merge_options policy)

-- The method that the merge box starts on, said without the menu.
abbrev pub starting_method : MergePolicy → Option MergeMethod → MergeMethod
starting_method policy none = policy.default_method
starting_method policy (some m) =
    if includes policy.allowed_methods m then m else policy.default_method

offers-filter :
    (p : MergeMethod → Bool) (m : MergeMethod)
    → offers (filter (λ (o : MergeMethodOption). p o.method) merge_method_options) m ≡ p m
offers-filter p merge = ground arith
offers-filter p squash = ground arith
offers-filter p rebase = ground arith

allowed_merge_options-offers :
    (allowed : List MergeMethod) (m d : MergeMethod)
    → allowed ≢ []
    → offers
        (allowed_merge_options (some (record { allowed_methods = allowed; default_method = d })))
        m
      ≡ includes allowed m
unfolding allowed_merge_options
allowed_merge_options-offers [] m d h = absurd (h refl)
allowed_merge_options-offers (a ∷ as_rest) m d h = offers-filter (includes (a ∷ as_rest)) m

remembered_or-starting :
    (policy : MergePolicy) (remembered : Option MergeMethod)
    → IsWellFormed policy
    → remembered_or remembered (some policy) (allowed_merge_options (some policy))
      ≡ starting_method policy remembered
remembered_or-starting policy none (h, _, d) = rw (
  allowed_merge_options-offers policy.allowed_methods policy.default_method policy.default_method h,
  d,
)
remembered_or-starting policy (some m) (h, _, d) = rw (
  allowed_merge_options-offers policy.allowed_methods m policy.default_method h,
  allowed_merge_options-offers policy.allowed_methods policy.default_method policy.default_method h,
  d,
)

-- Under the policy that the API computes from any columns, the merge box starts on the method
-- remembered for the repository if the policy allows it, and on the policy's default if not, if
-- nothing is remembered, or if the storage is absent or throws.
pub resolve_initial_method-repo_merge_policy :
    (allowed_column default_column : Option Text) (handle repo_name : Text) (storage : StorageLike)
    → resolve_initial_method handle repo_name
        (some (repo_merge_policy allowed_column default_column))
        storage
      ≡ starting_method
          (repo_merge_policy allowed_column default_column)
          (is_merge_method (get_item storage (merge_method_storage_key handle repo_name)))
unfolding resolve_initial_method
resolve_initial_method-repo_merge_policy allowed_column default_column handle repo_name storage =
    remembered_or-starting (repo_merge_policy allowed_column default_column) _
      (repo_merge_policy-IsWellFormed allowed_column default_column)
