-- ===== src/Scopes/Laws.antt =====
-- scopes.ts: the hierarchy of scopes, the stored column, and the default of a new token.
use forge_hub.Base.{
  Bool, List, [], any, arith, false, filter, filter_map, includes, join_with, leb, map, refl, some,
  true, ℕ, ◌++◌, ◌∷◌, ◌≡◌, text-Eq,
}
use forge_hub.Scopes.{
  array, not_array, scope-Eq, repo_read, repo_write, admin_scope, PatScope, has_scope, parse_scopes,
  serialize_scopes, normalize_requested_scopes, pat_scopes, scope_text, or_full, ScopesInput,
  scope_of_item,
}

abbrev pub rank : PatScope → ℕ
rank repo_read = 0
rank repo_write = 1
rank admin_scope = 2

-- A list grants a scope exactly when it holds one of the same or a higher rank.
pub has_scope-rank :
    (scopes : List PatScope) (required : PatScope)
    → has_scope scopes required ≡ any (λ s. leb (rank required) (rank s)) scopes
unfolding has_scope
has_scope-rank [] repo_read = refl
has_scope-rank [] repo_write = refl
has_scope-rank [] admin_scope = refl
has_scope-rank (s ∷ scopes) required = ground (arith, has_scope-rank scopes required)

abbrev pick_of : Bool → PatScope → List PatScope
pick_of true s = s ∷ []
pick_of false s = []

-- The scopes, in canonical order, that three flags choose.
abbrev subset : Bool → Bool → Bool → List PatScope
subset a b c = pick_of a repo_read ++ pick_of b repo_write ++ pick_of c admin_scope

filter-subset :
    (p : PatScope → Bool)
    → filter p pat_scopes ≡ subset (p repo_read) (p repo_write) (p admin_scope)
filter-subset p = ground arith

parse_scopes-subset :
    (a b c : Bool)
    → parse_scopes (some (join_with b',' (map scope_text (subset a b c)))) ≡ subset a b c
unfolding parse_scopes join_with
parse_scopes-subset true true true = refl
parse_scopes-subset true true false = refl
parse_scopes-subset true false true = refl
parse_scopes-subset true false false = refl
parse_scopes-subset false true true = refl
parse_scopes-subset false true false = refl
parse_scopes-subset false false true = refl
parse_scopes-subset false false false = refl

-- The stored column parses back to the scopes it was written from, each once and in canonical order.
pub parse_scopes-serialize_scopes :
    (scopes : List PatScope)
    → parse_scopes (some (serialize_scopes scopes)) ≡ filter (includes scopes) pat_scopes
unfolding serialize_scopes
parse_scopes-serialize_scopes scopes =
    rw (filter-subset (includes scopes)) (parse_scopes-subset _ _ _)

has_scope-or_full : (a b c : Bool) → has_scope (or_full (subset a b c)) repo_read ≡ true
unfolding has_scope
has_scope-or_full a b c = ground arith

-- Whatever a caller asks for, the new token may read repositories.
pub has_scope-normalize_requested_scopes :
    (input : ScopesInput) → has_scope (normalize_requested_scopes input) repo_read ≡ true
unfolding normalize_requested_scopes
has_scope-normalize_requested_scopes not_array = unfold has_scope in refl
has_scope-normalize_requested_scopes (array items) =
    rw (filter-subset (includes (filter_map scope_of_item items))) (has_scope-or_full _ _ _)
