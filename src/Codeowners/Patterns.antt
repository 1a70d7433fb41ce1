-- ===== src/Codeowners/Patterns.antt =====
-- codeowners.ts: compilePattern, from a pattern of gitignore to a regular expression.
use forge_hub.Base.{
  Bool, List, Option, Text, [], any, drop, drop_last, ends_with, false, get_elem?, if◌then◌else◌,
  leb, length, map_option, none, not, some, starts_with, suc, true, zero, ℕ, ◌&&◌, ◌++◌, ◌+◌, ◌==◌,
  ◌||◌, ◌∷◌,
}
use forge_hub.Regex.{Item, one, many, dirs, below, slash, dot, not_slash}

-- The ranges of a bracket expression without escapes; `none` where one is out of order, for which
-- `new RegExp` throws.
unfoldable pub ranges : Text → Option (List (ℕ × ℕ))
ranges [] = some []
ranges (a ∷ []) = some ((a, a) ∷ [])
ranges (a ∷ b ∷ []) = some ((a, a) ∷ (b, b) ∷ [])
ranges (a ∷ b ∷ c ∷ s) =
    let single = ranges (b ∷ c ∷ s) in
    let range = ranges s in
    if b == b'-'
    then (if leb a c then map_option (λ r. (a, c) ∷ r) range else none)
    else map_option (λ r. (a, a) ∷ r) single

abbrev in_ranges : List (ℕ × ℕ) → ℕ → Bool
in_ranges rs c = any (λ (r : ℕ × ℕ). leb r.0 c && leb c r.1) rs

-- `[inner]`, with a leading `!` turned to `^`.
unfoldable pub class_of : Text → Option Item
unfolding ranges
class_of inner =
    let text = if starts_with inner (b'!' ∷ []) then b'^' ∷ drop 1 inner else inner in
    if starts_with text (b'^' ∷ [])
    then map_option (λ rs. one (λ c. not (in_ranges rs c))) (ranges (drop 1 text))
    else map_option (λ rs. one (in_ranges rs)) (ranges text)

-- `p.indexOf("]", i + 1)`, from the character after `i`.
unfoldable pub until_bracket : Text → Option Text
until_bracket [] = none
until_bracket (c ∷ s) =
    let rest = until_bracket s in if c == b']' then some [] else map_option (λ t. c ∷ t) rest

abbrev pub is_at : ℕ → ℕ → Text → Bool
is_at c i s = elim (get_elem? s i) [ none ↦ false | some d ↦ d == c ]

abbrev literal : ℕ → Item
literal c = one (λ d. d == c)

-- What the loop's body adds for the character `c`, with `s` after it, and how far `i` skips ahead.
abbrev bracket_item : Option Text → Option Item
unfolding class_of
bracket_item none = some (literal b'[')
bracket_item (some inner) = class_of inner

abbrev bracket_skip : Option Text → ℕ
bracket_skip none = 0
bracket_skip (some inner) = length inner + 1

unfoldable pub item_at : Bool → ℕ → Text → Option Item
unfolding until_bracket bracket_item class_of
item_at at_segment_start c s =
    if c == b'*'
    then (if is_at b'*' 0 s
        then some (if at_segment_start && is_at slash 1 s then dirs else many dot)
        else some (many not_slash))
    else if c == b'?'
    then some (one not_slash)
    else if c == b'['
    then bracket_item (until_bracket s)
    else some (literal c)

unfoldable pub skip_at : Bool → ℕ → Text → ℕ
unfolding until_bracket
skip_at at_segment_start c s =
    if c == b'*'
    then (if is_at b'*' 0 s then (if at_segment_start && is_at slash 1 s then 2 else 1) else 0)
    else if c == b'['
    then bracket_skip (until_bracket s)
    else 0

abbrev prepend : Option Item → Option (List Item) → Option (List Item)
prepend none is = none
prepend (some i) none = none
prepend (some i) (some is) = some (i ∷ is)

-- The loop. `skip` characters are passed over; `at_segment_start`: `i === 0 || p[i - 1] === "/"`.
unfoldable pub body : ℕ → Bool → Text → Option (List Item)
unfolding item_at skip_at
body skip at_segment_start [] = some []
body (suc skip) at_segment_start (c ∷ s) = body skip (c == slash) s
body zero at_segment_start (c ∷ s) =
    prepend (item_at at_segment_start c s) (body (skip_at at_segment_start c s) (c == slash) s)

abbrev around : Bool → Bool → List Item → List Item
around anchored dir_only is =
    (if anchored then [] else dirs ∷ [])
    ++ is
    ++ (if dir_only then literal slash ∷ many dot ∷ [] else below ∷ [])

-- A backslash after an opening bracket: the text of a bracket expression that holds one would have
-- an escape of the regular expression in it.
unfoldable pub has_escape : Bool → Text → Bool
has_escape in_bracket [] = false
has_escape in_bracket (c ∷ s) =
    (in_bracket && c == 92) || has_escape (if in_bracket then not (c == b']') else c == b'[') s

unfoldable pub compile_from : Bool → Bool → Text → Option (List Item)
unfolding body
compile_from anchored dir_only [] = none
compile_from anchored dir_only (c ∷ s) = map_option (around anchored dir_only) (body 0 true (c ∷ s))

-- `escaped` is the compilation of the patterns with an escape in a bracket.
unfoldable pub compile_pattern : (Text → Option (List Item)) → Text → Option (List Item)
unfolding has_escape compile_from body
compile_pattern escaped pattern =
    let dir_only = ends_with slash pattern in
    let p = if dir_only then drop_last pattern else pattern in
    let anchored = any (λ c. c == slash) p in
    let q = if starts_with p (slash ∷ []) then drop 1 p else p in
    if has_escape false q then escaped pattern else compile_from anchored dir_only q
