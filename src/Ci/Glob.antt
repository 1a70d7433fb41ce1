-- ===== src/Ci/Glob.antt =====
-- ci/workflows.ts: globMatch and branchAllowed; protected-tags.ts: isTagProtected.
pub mod Laws
use forge_hub.Base.{
  Bool, List, Option, Text, [], any, false, map, none, some, split_on, true, value, ℕ, ◌++◌, ◌==◌,
  ◌∷◌,
}
use forge_hub.Regex.{Item, one, many, not_slash, matches}

abbrev pub star : ℕ
star = 42

-- What the text of a segment between stars matches: its special characters are escaped, so each
-- character stands for itself. The escaped text is not built.
unfoldable pub literals : Text → List Item
literals s = map (λ c. one (λ d. d == c)) s

-- `.join("[^/]*")`
unfoldable pub join_segments : List Text → List Item
unfolding literals
join_segments [] = []
join_segments (s ∷ []) = literals s
join_segments (s ∷ t ∷ ss) = literals s ++ many not_slash ∷ join_segments (t ∷ ss)

unfoldable pub glob_match : Text → Text → Bool
unfolding split_on join_segments matches
glob_match pattern value = matches (join_segments (split_on star pattern)) value

unfoldable pub branch_allowed : Option (List Text) → Option Text → Bool
unfolding glob_match
branch_allowed none branch = true
branch_allowed (some filters) none = false
branch_allowed (some filters) (some branch) = any (λ p. glob_match p branch) filters

unfoldable pub tag_matches_pattern : Text → Text → Bool
unfolding glob_match
tag_matches_pattern pattern tag = glob_match pattern tag

unfoldable pub is_tag_protected : List Text → Text → Bool
unfolding tag_matches_pattern
is_tag_protected patterns tag = any (λ p. tag_matches_pattern p tag) patterns
