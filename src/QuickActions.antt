-- ===== src/QuickActions.antt =====
-- apps/api/src/quick-actions.ts: the commands in a comment. Its regular expressions are written out
-- as scans; `PullCommands` and `IssueCommands` apply what is parsed here.
pub mod Parsing
pub mod Session
pub mod Labels
pub mod Issue
pub mod LabelCommands
pub mod Dispatch
pub mod Pull
pub mod Permissions
pub mod Tests
use forge_hub.Base.{
  Bool, List, Option, Text, [], any, codes, drop_last, ends_with, false, if◌then◌else◌, is_digit,
  join_with, leb, lower_unit, map, none, not, some, split_crlf, starts_with, trim, trim_start, true,
  ℕ, ◌&&◌, ◌++◌, ◌==◌, ◌||◌, ◌∷◌, text-Eq,
}

pub record QuickCommand : Type 0 where
  pub name : Text
  pub arg : Text
  pub raw : Text

pub data Fence : Type 0 where
  backticks tildes : Fence

-- FENCE_RE: the marker that a line opens or closes.
unfoldable pub fence_of : Text → Option Fence
fence_of line =
    let s = trim_start line in
    if starts_with s (codes "```")
    then some backticks
    else if starts_with s (codes "~~~")
    then some tildes
    else none

abbrev pub is_letter : ℕ → Bool
is_letter c = (leb b'a' c && leb c b'z') || (leb b'A' c && leb c b'Z') || c == b'_'

abbrev pub is_word : ℕ → Bool
is_word c = is_letter c || is_digit c

-- What `.` does not match.
abbrev pub is_terminator : ℕ → Bool
is_terminator c = c == 10 || c == 13 || c == 0x2028 || c == 0x2029

unfoldable pub take_word : Text → Text
take_word [] = []
take_word (c ∷ s) = let rest = take_word s in if is_word c then c ∷ rest else []

unfoldable pub drop_word : Text → Text
drop_word [] = []
drop_word (c ∷ s) = let rest = drop_word s in if is_word c then rest else c ∷ s

-- The match of COMMAND_LINE_RE after the indent: `m[1]` and `m[2]`.
unfoldable pub match_command : Text → Option (Text × Text)
unfolding take_word drop_word
match_command [] = none
match_command (c ∷ []) = none
match_command (c ∷ d ∷ s) =
    let rest = trim_start (drop_word s) in
    if c == b'/' && is_letter d && not (any is_terminator rest)
    then some (d ∷ take_word s, rest)
    else none

abbrev pub command_from : Text → Text × Text → QuickCommand
command_from line (word, rest) = record {
  name = map lower_unit word;
  arg = trim rest;
  raw = trim line;
}

abbrev pub command_of : Text → Option QuickCommand
command_of line = elim (match_command (trim_start line)) [
  | none ↦ none
  | some m ↦ some (command_from line m)
]

abbrev pub same_fence : Fence → Fence → Bool
same_fence backticks backticks = true
same_fence tildes tildes = true
same_fence backticks tildes = false
same_fence tildes backticks = false

-- The variable `fence` after a line with a marker.
abbrev pub next_fence : Option Fence → Fence → Option Fence
next_fence none marker = some marker
next_fence (some open_one) marker = if same_fence open_one marker then none else some open_one

-- What becomes of a line, by the fence before it.
pub data LineKind : Type 0 where
  fence_line : Option Fence → LineKind
  command_line : QuickCommand → LineKind
  prose_line : LineKind

unfoldable pub classify : Option Fence → Text → LineKind
unfolding fence_of match_command trim_start
classify fence line = elim (fence_of line) [
  | some marker ↦ fence_line (next_fence fence marker)
  | none ↦ elim fence [
    | some open_one ↦ prose_line
    | none ↦ elim (command_of line) [ some cmd ↦ command_line cmd | none ↦ prose_line ]
  ]
]

-- The loop over the lines.
unfoldable pub parse_lines :
    Option Fence → List QuickCommand → List Text → List Text → List QuickCommand × List Text
parse_lines fence commands kept [] = (commands, kept)
parse_lines fence commands kept (line ∷ lines) = elim (classify fence line) [
  | fence_line next ↦ parse_lines next commands (kept ++ line ∷ []) lines
  | command_line cmd ↦ parse_lines fence (commands ++ cmd ∷ []) kept lines
  | prose_line ↦ parse_lines fence commands (kept ++ line ∷ []) lines
]

pub record ParsedComment : Type 0 where
  pub commands : List QuickCommand
  pub body : Text

-- `!input` holds of null, undefined and the empty text.
unfoldable pub parse_quick_actions : Option Text → ParsedComment
unfolding parse_lines classify split_crlf join_with trim
parse_quick_actions none = record { commands = []; body = [] }
parse_quick_actions (some []) = record { commands = []; body = [] }
parse_quick_actions (some (c ∷ s)) =
    let (commands, kept) = parse_lines none [] [] (split_crlf (c ∷ s)) in
    record { commands = commands; body = trim (join_with 10 kept) }

abbrev pub known_commands : List Text
known_commands =
    codes "close"
    ∷ codes "reopen"
    ∷ codes "label"
    ∷ codes "unlabel"
    ∷ codes "assign"
    ∷ codes "unassign"
    ∷ codes "title"
    ∷ codes "estimate"
    ∷ codes "spend"
    ∷ codes "remove_estimate"
    ∷ codes "remove_time_spent"
    ∷ codes "milestone"
    ∷ codes "remove_milestone"
    ∷ []

-- `s.endsWith(quote) && s.length >= 2`, and the text between the quotes.
abbrev unquote : Text → Text
unquote [] = []
unquote (c ∷ []) = c ∷ []
unquote (c ∷ d ∷ s) =
    if (c == 34 || c == 39) && ends_with c (d ∷ s) then trim (drop_last (d ∷ s)) else c ∷ d ∷ s

abbrev after_percent : Text → Text
after_percent [] = []
after_percent (c ∷ s) = if c == b'%' then trim s else c ∷ s

unfoldable pub parse_milestone_title : Text → Text
unfolding trim
parse_milestone_title arg = unquote (after_percent (trim arg))
