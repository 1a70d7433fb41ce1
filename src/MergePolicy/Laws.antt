-- ===== src/MergePolicy/Laws.antt =====
-- merge-policy.ts: the policy is well-formed whatever the columns hold.
use forge_hub.Base.{
  ===-self, Bool, Bool-cases, List, Option, Text, [], arith, false, filter, filter_map, get_or,
  includes, inl, inr, map, none, refl, some, split_on, trim, true, ◌++◌, ◌∷◌, ◌≡◌, ◌≢◌, text-Eq,
}
use forge_hub.MergePolicy.{
  method-Eq, merge, squash, rebase, MergePolicy, MergeMethod, repo_merge_policy, all_merge_methods,
  or_all, parse_allowed_methods, pick_default, method_of, is_merge_method, head_or_merge,
}

-- Some method is allowed, the allowed ones stand in canonical order without repetition, and the
-- default is one of them.
abbrev pub IsWellFormed : MergePolicy → Type 0
IsWellFormed p =
    (p.allowed_methods ≢ [])
    × (filter (includes p.allowed_methods) all_merge_methods ≡ p.allowed_methods)
    × (includes p.allowed_methods p.default_method ≡ true)

abbrev pick_of : Bool → MergeMethod → List MergeMethod
pick_of true m = m ∷ []
pick_of false m = []

-- The methods, in canonical order, that three flags choose.
abbrev subset : Bool → Bool → Bool → List MergeMethod
subset a b c = pick_of a merge ++ pick_of b squash ++ pick_of c rebase

filter-subset :
    (p : MergeMethod → Bool) → filter p all_merge_methods ≡ subset (p merge) (p squash) (p rebase)
filter-subset p = ground arith

or_all-subset :
    (a b c : Bool)
    → (or_all (subset a b c) all_merge_methods ≢ [])
      × (filter (includes (or_all (subset a b c) all_merge_methods)) all_merge_methods
          ≡ or_all (subset a b c) all_merge_methods)
or_all-subset true true true = (λ e. cc, refl)
or_all-subset true true false = (λ e. cc, refl)
or_all-subset true false true = (λ e. cc, refl)
or_all-subset true false false = (λ e. cc, refl)
or_all-subset false true true = (λ e. cc, refl)
or_all-subset false true false = (λ e. cc, refl)
or_all-subset false false true = (λ e. cc, refl)
or_all-subset false false false = (λ e. cc, refl)

includes-head_or_merge : (ms : List MergeMethod) → ms ≢ [] → includes ms (head_or_merge ms) ≡ true
includes-head_or_merge [] h = absurd (h refl)
includes-head_or_merge (m ∷ ms) h = rw (===-self m)

includes-pick_default :
    (stored : Option MergeMethod) (ms : List MergeMethod)
    → ms ≢ []
    → includes ms (pick_default stored ms) ≡ true
includes-pick_default none ms h = includes-head_or_merge ms h
includes-pick_default (some m) ms h = elim (Bool-cases (includes ms m)) [
  | inl e ↦ rw (e, e)
  | inr e ↦ rw e (includes-head_or_merge ms h)
]

IsWellFormed-subset :
    (a b c : Bool) (stored : Option MergeMethod)
    → IsWellFormed (record {
      allowed_methods = or_all (subset a b c) all_merge_methods;
      default_method = pick_default stored (or_all (subset a b c) all_merge_methods);
    })
IsWellFormed-subset a b c stored =
    let (some_method, canonical) = or_all-subset a b c in
    (
      some_method,
      canonical,
      includes-pick_default stored (or_all (subset a b c) all_merge_methods) some_method,
    )

-- Whatever the two columns hold, the policy allows some method, lists the allowed methods in canonical
-- order without repetition, and its default is one of them.
pub repo_merge_policy-IsWellFormed :
    (allowed_column default_column : Option Text)
    → IsWellFormed (repo_merge_policy allowed_column default_column)
unfolding repo_merge_policy parse_allowed_methods
repo_merge_policy-IsWellFormed allowed_column default_column =
    rw
      (filter-subset
        (includes (filter_map method_of (map trim (split_on 44 (get_or allowed_column []))))))
      (IsWellFormed-subset _ _ _ (is_merge_method default_column))
