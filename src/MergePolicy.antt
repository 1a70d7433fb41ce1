-- ===== src/MergePolicy.antt =====
-- apps/api/src/merge-policy.ts: the merge methods that a repository allows.
pub mod Laws
pub mod Web
pub mod Tests
use forge_hub.Base.{
  Bool, Eq, List, Option, Text, [], arith, codes, false, filter, filter_map, find, get_or,
  if◌then◌else◌, includes, map, none, some, split_on, trim, true, ◌===◌, ◌↔◌, ◌∷◌, ◌≡◌, text-Eq,
}

-- `MergeMethod` of git-utils.ts.
pub data MergeMethod : Type 0 where
  merge squash rebase : MergeMethod

abbrev pub method_text : MergeMethod → Text
method_text merge = codes "merge"
method_text squash = codes "squash"
method_text rebase = codes "rebase"

abbrev pub same_method : MergeMethod → MergeMethod → Bool
same_method merge merge = true
same_method squash squash = true
same_method rebase rebase = true
same_method merge squash = false
same_method merge rebase = false
same_method squash merge = false
same_method squash rebase = false
same_method rebase merge = false
same_method rebase squash = false

pub same_method_iff : (a b : MergeMethod) → (same_method a b ≡ true) ↔ (a ≡ b)
same_method_iff merge merge = ground arith
same_method_iff squash squash = ground arith
same_method_iff rebase rebase = ground arith
same_method_iff merge squash = (λ e. absurd (cc), λ e. absurd (cc))
same_method_iff merge rebase = (λ e. absurd (cc), λ e. absurd (cc))
same_method_iff squash merge = (λ e. absurd (cc), λ e. absurd (cc))
same_method_iff squash rebase = (λ e. absurd (cc), λ e. absurd (cc))
same_method_iff rebase merge = (λ e. absurd (cc), λ e. absurd (cc))
same_method_iff rebase squash = (λ e. absurd (cc), λ e. absurd (cc))

instance abbrev pub method-Eq : Eq MergeMethod
method-Eq = record { beq = same_method; beq_iff = same_method_iff }

abbrev pub all_merge_methods : List MergeMethod
all_merge_methods = merge ∷ squash ∷ rebase ∷ []

-- `isMergeMethod`, with the method that the text names; a null or absent value is `none`.
unfoldable pub method_of : Text → Option MergeMethod
method_of s = find (λ m. method_text m === s) all_merge_methods

unfoldable pub is_merge_method : Option Text → Option MergeMethod
unfolding method_of
is_merge_method none = none
is_merge_method (some s) = method_of s

-- `list.length > 0 ? list : all`.
abbrev pub or_all : {A : Type 0} → List A → List A → List A
or_all [] all_of = all_of
or_all (x ∷ xs) all_of = x ∷ xs

unfoldable pub parse_allowed_methods : Option Text → List MergeMethod
unfolding method_of split_on trim
parse_allowed_methods raw =
    let parsed = filter_map method_of (map trim (split_on b',' (get_or raw []))) in
    or_all (filter (includes parsed) all_merge_methods) all_merge_methods

pub record MergePolicy : Type 0 where
  pub allowed_methods : List MergeMethod
  pub default_method : MergeMethod

-- `allowedMethods[0]`; a list that is never empty.
abbrev pub head_or_merge : List MergeMethod → MergeMethod
head_or_merge [] = merge
head_or_merge (m ∷ ms) = m

abbrev pub pick_default : Option MergeMethod → List MergeMethod → MergeMethod
pick_default none allowed = head_or_merge allowed
pick_default (some stored) allowed =
    if includes allowed stored then stored else head_or_merge allowed

-- The columns `allowedMergeMethods` and `defaultMergeMethod`.
unfoldable pub repo_merge_policy : Option Text → Option Text → MergePolicy
unfolding parse_allowed_methods is_merge_method
repo_merge_policy allowed_column default_column =
    let allowed = parse_allowed_methods allowed_column in
    record {
      allowed_methods = allowed;
      default_method = pick_default (is_merge_method default_column) allowed;
    }
