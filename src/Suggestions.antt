-- ===== src/Suggestions.antt =====
-- apps/api/src/suggestions.ts: a suggested change spliced into a file.
pub mod Laws
pub mod Tests
use forge_hub.Base.{
  Bool, List, Text, [], codes, drop, drop_last, ends_with, if◌then◌else◌, join_with, length, ltb,
  show, split_on, take, ℕ, ◌++◌, ◌+◌, ◌-◌, ◌==◌, ◌||◌, ◌∷◌, text-Eq,
}

pub data SuggestionApplyResult : Type 0 where
  replaced : Text → SuggestionApplyResult
  out_of_range : Text → SuggestionApplyResult

-- `s.endsWith("\n") ? s.slice(0, -1) : s`
abbrev pub without_newline : Text → Text
without_newline s = if ends_with 10 s then drop_last s else s

-- `s === "" ? [] : s.split("\n")`
unfoldable pub lines_of : Text → List Text
unfolding split_on
lines_of [] = []
lines_of (c ∷ s) = split_on 10 (c ∷ s)

-- `lines.splice(line - 1, 1, ...replacement)`
abbrev pub splice : ℕ → List Text → List Text → List Text
splice index replacement lines = take index lines ++ replacement ++ drop (index + 1) lines

abbrev pub restore : Bool → Text → Text
restore had_newline [] = []
restore had_newline (c ∷ s) = if had_newline then (c ∷ s) ++ 10 ∷ [] else c ∷ s

abbrev range_error : ℕ → ℕ → Text
unfolding show
range_error line total =
    codes "Line "
    ++ show line
    ++ codes " is out of range — the file has "
    ++ show total
    ++ codes " line"
    ++ (if total == 1 then [] else codes "s")
    ++ codes " at the current head"

unfoldable pub apply_suggestion_to_content : Text → ℕ → Text → SuggestionApplyResult
unfolding lines_of join_with range_error
apply_suggestion_to_content content line suggestion =
    let lines = lines_of (without_newline content) in
    if ltb line 1 || ltb (length lines) line
    then out_of_range (range_error line (length lines))
    else replaced (
        restore (ends_with 10 content)
          (join_with 10 (splice (line - 1) (lines_of (without_newline suggestion)) lines)))
