-- ===== src/Hunks.antt =====
-- apps/api/src/merge/text-hunks.ts: merge hunks of a line diff, and the text that picks of sides
-- give. Both outer loops run on fuel, one round for each line at most.
pub mod Grouping
pub mod Merging
pub mod Web
pub mod Resolve
pub mod Tests
use forge_hub.Base.{
  Bool, List, Option, Text, [], codes, false, get_elem?, get_or, if◌then◌else◌, join_with, length,
  lookup, ltb, none, show, some, suc, true, zero, ℕ, ◌++◌, ◌+◌, ◌||◌, ◌∷◌, text-Eq,
}
use forge_hub.Diff.{TextDiffLine, added, removed, unchanged, LineType}

pub record TextMergeHunk : Type 0 where
  pub id : Text
  pub base_lines : List Text
  pub incoming_lines : List Text

pub data TextHunkSide : Type 0 where
  base incoming : TextHunkSide

abbrev pub is_unchanged : LineType → Bool
is_unchanged unchanged = true
is_unchanged added = false
is_unchanged removed = false

abbrev pub Run : Type 0
Run = List Text × List Text × List TextDiffLine

abbrev pub push_row : LineType → Text → (List Text → List Text → Run) → List Text → List Text → Run
push_row removed s next base_lines incoming_lines = next (base_lines ++ s ∷ []) incoming_lines
push_row added s next base_lines incoming_lines = next base_lines (incoming_lines ++ s ∷ [])
push_row unchanged s next base_lines incoming_lines = next base_lines incoming_lines

-- The inner loop: the lines of one hunk, and the rows that are left.
unfoldable pub take_run : List TextDiffLine → List Text → List Text → Run
take_run [] base_lines incoming_lines = (base_lines, incoming_lines, [])
take_run (row ∷ rows) base_lines incoming_lines =
    let more = push_row row.type row.content (take_run rows) base_lines incoming_lines in
    if is_unchanged row.type then (base_lines, incoming_lines, row ∷ rows) else more

-- `h${n}`
abbrev pub hunk_id : ℕ → Text
hunk_id n = codes "h" ++ show n

abbrev pub push_hunk : List TextMergeHunk → Run → List TextMergeHunk
push_hunk hunks run =
    if ltb 0 (length run.0) || ltb 0 (length run.1)
    then hunks
      ++ record { id = hunk_id (length hunks); base_lines = run.0; incoming_lines = run.1 } ∷ []
    else hunks

unfoldable pub group_from : ℕ → List TextMergeHunk → List TextDiffLine → List TextMergeHunk
group_from zero hunks lines = hunks
group_from (suc f) hunks [] = hunks
group_from (suc f) hunks (row ∷ rows) =
    let skip = group_from f hunks rows in
    let next = let run = take_run (row ∷ rows) [] [] in group_from f (push_hunk hunks run) run.2 in
    if is_unchanged row.type then skip else next

unfoldable pub group_plain_text_hunks : List TextDiffLine → List TextMergeHunk
unfolding group_from take_run
group_plain_text_hunks lines = group_from (length lines) [] lines

-- `while (i < lines.length && lines[i].type !== "unchanged") i++`
unfoldable pub skip_run : List TextDiffLine → List TextDiffLine
skip_run [] = []
skip_run (row ∷ rows) =
    let more = skip_run rows in if is_unchanged row.type then row ∷ rows else more

abbrev pub pick : TextHunkSide → List Text → List Text → List Text
pick base base_lines incoming_lines = base_lines
pick incoming base_lines incoming_lines = incoming_lines

-- `none` is the exception of reading a hunk that is not there, or too little fuel.
unfoldable pub merge_from :
    ℕ
    → List TextMergeHunk
    → List (Text × TextHunkSide)
    → TextHunkSide
    → ℕ
    → List Text
    → List TextDiffLine
    → Option (List Text)
merge_from f hunks sides default_side hunk_index out [] = some out
merge_from zero hunks sides default_side hunk_index out (row ∷ rows) = none
merge_from (suc f) hunks sides default_side hunk_index out (row ∷ rows) =
    let keep = merge_from f hunks sides default_side hunk_index (out ++ row.content ∷ []) rows in
    let picked = λ (hunk : TextMergeHunk).
      let side = get_or (lookup hunk.id sides) default_side in
      merge_from f hunks sides default_side (hunk_index + 1)
        (out ++ pick side hunk.base_lines hunk.incoming_lines) (skip_run (row ∷ rows)) in
    if is_unchanged row.type
    then keep
    else elim (get_elem? hunks hunk_index) [ none ↦ none | some hunk ↦ picked hunk ]

-- `out.join("\n")`
abbrev pub joined_lines : Option (List Text) → Option Text
joined_lines none = none
joined_lines (some out) = some (join_with 10 out)

unfoldable pub materialize_plain_text_merge :
    List TextDiffLine → List (Text × TextHunkSide) → TextHunkSide → Option Text
unfolding group_plain_text_hunks merge_from skip_run lookup
materialize_plain_text_merge lines hunk_sides default_side =
    let hunks = group_plain_text_hunks lines in
    joined_lines (merge_from (length lines) hunks hunk_sides default_side 0 [] lines)
