-- ===== src/Codeowners.antt =====
-- apps/api/src/codeowners.ts: patterns as regular expressions (Patterns), the rules of a file, and the
-- owners of paths. Requests is codeowners-service.ts.
pub mod Patterns
pub mod Segments
pub mod Names
pub mod LastMatch
pub mod Requests
pub mod Tests
use forge_hub.Base.{
  Bool, List, Option, Text, [], add, add_all, all, codes, drop, false, if◌then◌else◌, is_empty,
  is_space, leb, lower_unit, map, none, push_head, some, split_crlf, starts_with, trim, ℕ, ◌&&◌,
  ◌+◌, ◌==◌, ◌||◌, ◌∷◌, text-Eq,
}
use forge_hub.Regex.{Item, slash, matches}
use forge_hub.Codeowners.Patterns.{compile_pattern}

pub record CodeownersRule : Type 0 where
  pub line : ℕ
  pub pattern : Text
  pub owners : List Text
  pub negated : Bool
  pub match : List Item

-- `CODEOWNERS_PATHS`
abbrev pub codeowners_paths : List Text
codeowners_paths = codes ".forgehub/CODEOWNERS" ∷ codes "CODEOWNERS" ∷ codes "docs/CODEOWNERS" ∷ []

abbrev is_alnum : ℕ → Bool
is_alnum c = (leb b'A' c && leb c b'Z') || (leb b'a' c && leb c b'z') || (leb b'0' c && leb c b'9')

-- `HANDLE.exec(token)?.[1]?.toLowerCase()`
unfoldable pub handle_of : Text → Option Text
handle_of [] = none
handle_of (a ∷ []) = none
handle_of (a ∷ c ∷ s) =
    if a == b'@' && is_alnum c && all (λ d. is_alnum d || d == b'-' || d == b'_') s
    then some (map lower_unit (c ∷ s))
    else none

-- The loop over the tokens, which keeps each handle once.
unfoldable pub add_owners : List Text → List Text → List Text
unfolding handle_of
add_owners owners [] = owners
add_owners owners (token ∷ tokens) =
    add_owners (elim (handle_of token) [ none ↦ owners | some h ↦ add owners h ]) tokens

-- `s.split(/\s+/)`
unfoldable pub split_spaces : Bool → Text → List Text
split_spaces in_space [] = [] ∷ []
split_spaces in_space (c ∷ s) =
    let rest = split_spaces (is_space c) s in
    if is_space c then (if in_space then rest else [] ∷ rest) else push_head c rest

-- The line up to `#`.
unfoldable pub before_hash : Text → Text
before_hash [] = []
before_hash (c ∷ s) = let rest = before_hash s in if c == b'#' then [] else c ∷ rest

-- `p.startsWith(c)`, and the text without that character.
abbrev pub head_is : ℕ → Text → Bool
head_is c [] = false
head_is c (d ∷ s) = d == c

abbrev pub tail_if : Bool → Text → Text
tail_if b s = if b then drop 1 s else s

-- The pattern that a regular expression with an escape in a bracket comes to is a parameter.
module _ (escaped : Text → Option (List Item)) where
  abbrev rule_of : ℕ → Text → List Text → Option CodeownersRule
  unfolding compile_pattern add_owners
  rule_of line raw_pattern owner_tokens =
      let negated = head_is b'!' raw_pattern in
      let pattern = tail_if negated raw_pattern in
      elim (compile_pattern escaped pattern) [
        | none ↦ none
        | some match ↦ some (record {
          line = line;
          pattern = pattern;
          owners = if negated then [] else add_owners [] owner_tokens;
          negated = negated;
          match = match;
        })
      ]

  abbrev parse_tokens : ℕ → List Text → Option CodeownersRule
  unfolding compile_pattern add_owners
  parse_tokens line [] = none
  parse_tokens line ([] ∷ tokens) = none
  parse_tokens line ((c ∷ s) ∷ tokens) = rule_of line (c ∷ s) tokens

  -- The body of the loop over the lines.
  unfoldable pub parse_line : ℕ → Text → Option CodeownersRule
  unfolding before_hash trim split_spaces rule_of parse_tokens
  parse_line line raw =
      let text = trim (before_hash raw) in
      if is_empty text then none else parse_tokens line (split_spaces false text)

  unfoldable pub parse_lines : ℕ → List Text → List CodeownersRule
  unfolding parse_line
  parse_lines i [] = []
  parse_lines i (l ∷ ls) =
      let rest = parse_lines (i + 1) ls in
      elim (parse_line (i + 1) l) [ none ↦ rest | some rule ↦ rule ∷ rest ]

  unfoldable pub parse_codeowners : Text → List CodeownersRule
  unfolding split_crlf parse_lines
  parse_codeowners raw = parse_lines 0 (split_crlf raw)

-- `.replace(/^\/+/, "")`
unfoldable pub drop_slashes : Text → Text
drop_slashes [] = []
drop_slashes (c ∷ s) = let rest = drop_slashes s in if c == slash then rest else c ∷ s

unfoldable pub normalize_path : Text → Text
unfolding drop_slashes
normalize_path path =
    drop_slashes (if starts_with path (b'.' ∷ slash ∷ []) then drop 2 path else path)

-- The loop over the rules: the last rule that matches is kept.
unfoldable pub last_owners : Text → List Text → List CodeownersRule → List Text
unfolding matches
last_owners path owners [] = owners
last_owners path owners (rule ∷ rules) =
    last_owners path
      (if matches rule.match path then (if rule.negated then [] else rule.owners) else owners) rules

unfoldable pub owners_for_path : List CodeownersRule → Text → List Text
unfolding normalize_path last_owners
owners_for_path rules file_path = last_owners (normalize_path file_path) [] rules

unfoldable pub union_owners : List CodeownersRule → List Text → List Text → List Text
unfolding owners_for_path
union_owners rules seen [] = seen
union_owners rules seen (p ∷ ps) = union_owners rules (add_all seen (owners_for_path rules p)) ps

unfoldable pub owners_for_paths : List CodeownersRule → List Text → List Text
unfolding union_owners
owners_for_paths [] paths = []
owners_for_paths (r ∷ rs) paths = union_owners (r ∷ rs) [] paths
