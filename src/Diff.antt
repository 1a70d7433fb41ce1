-- ===== src/Diff.antt =====
-- apps/api/src/handlers/plain-text/compare.ts: the line diff of two texts. The table `dp` is a list
-- of rows, last row first filled, and the two indices of a walk also stand for the lines left.
pub mod Table
pub mod Subsequence
pub mod Rebuild
pub mod Counts
pub mod Tests
use forge_hub.Base.{
  List, Option, Text, [], drop_last, ends_with, get_elem?, get_or, if◌then◌else◌, leb, max, none,
  some, split_crlf, ℕ, ◌+◌, ◌===◌, ◌∷◌, text-Eq,
}

pub data LineType : Type 0 where
  added removed unchanged : LineType

pub record TextDiffLine : Type 0 where
  pub type : LineType
  pub content : Text
  pub old_line : Option ℕ
  pub new_line : Option ℕ

unfoldable pub split_lines : Text → List Text
unfolding split_crlf
split_lines [] = []
split_lines (c ∷ s) =
    let raw = split_crlf (c ∷ s) in if ends_with 10 (c ∷ s) then drop_last raw else raw

abbrev pub head_or_zero : List ℕ → ℕ
head_or_zero [] = 0
head_or_zero (d ∷ ds) = d

abbrev pub zeros : List Text → List ℕ
zeros [] = 0 ∷ []
zeros (b ∷ bs) = 0 ∷ zeros bs

-- The inner loop: row `i` of `dp` from row `i + 1`, from the last column to the first.
unfoldable pub fill_row : Text → List Text → List ℕ → List ℕ
fill_row a (b ∷ bs) (below ∷ next) =
    let row = fill_row a bs next in
    (if a === b then 1 + head_or_zero next else max below (head_or_zero row)) ∷ row
fill_row a _ _ = 0 ∷ []

abbrev pub head_row : List (List ℕ) → List ℕ
head_row [] = []
head_row (row ∷ rows) = row

-- The outer loop, from the last line of the old text to its first.
unfoldable pub fill_table : List Text → List Text → List (List ℕ)
fill_table [] new_lines = zeros new_lines ∷ []
fill_table (a ∷ old_lines) new_lines =
    let rows = fill_table old_lines new_lines in fill_row a new_lines (head_row rows) ∷ rows

-- `dp[i][j]`
unfoldable pub cell : List (List ℕ) → ℕ → ℕ → ℕ
cell dp i j = get_or (get_elem? (get_or (get_elem? dp i) []) j) 0

abbrev pub unchanged_line : Text → ℕ → ℕ → TextDiffLine
unchanged_line s old_num new_num = record {
  type = unchanged;
  content = s;
  old_line = some old_num;
  new_line = some new_num;
}

abbrev pub removed_line : Text → ℕ → TextDiffLine
removed_line s old_num = record {
  type = removed;
  content = s;
  old_line = some old_num;
  new_line = none;
}

abbrev pub added_line : Text → ℕ → TextDiffLine
added_line s new_num = record {
  type = added;
  content = s;
  old_line = none;
  new_line = some new_num;
}

-- The second and the third loop.
unfoldable pub remove_rest : ℕ → List Text → List TextDiffLine
remove_rest old_num [] = []
remove_rest old_num (a ∷ old_lines) = removed_line a old_num ∷ remove_rest (old_num + 1) old_lines

unfoldable pub add_rest : ℕ → List Text → List TextDiffLine
add_rest new_num [] = []
add_rest new_num (b ∷ new_lines) = added_line b new_num ∷ add_rest (new_num + 1) new_lines

-- The first loop, whose exit runs the other two; one of these has nothing to do.
unfoldable pub walk : List (List ℕ) → ℕ → ℕ → ℕ → ℕ → List Text → List Text → List TextDiffLine
walk dp i j old_num new_num [] new_lines = add_rest new_num new_lines
walk dp i j old_num new_num (a ∷ old_lines) [] = remove_rest old_num (a ∷ old_lines)
walk dp i j old_num new_num (a ∷ old_lines) (b ∷ new_lines) =
    let both = walk dp (i + 1) (j + 1) (old_num + 1) (new_num + 1) old_lines new_lines in
    let remove = walk dp (i + 1) j (old_num + 1) new_num old_lines (b ∷ new_lines) in
    let add_one = walk dp i (j + 1) old_num (new_num + 1) (a ∷ old_lines) new_lines in
    if a === b
    then unchanged_line a old_num new_num ∷ both
    else if leb (cell dp i (j + 1)) (cell dp (i + 1) j)
    then removed_line a old_num ∷ remove
    else added_line b new_num ∷ add_one

unfoldable pub diff_lines : List Text → List Text → List TextDiffLine
unfolding walk add_rest remove_rest cell fill_table fill_row
diff_lines old_lines new_lines = walk (fill_table old_lines new_lines) 0 0 1 1 old_lines new_lines

pub record Summary : Type 0 where
  pub added : ℕ
  pub removed : ℕ
  pub unchanged : ℕ

abbrev pub count_line : LineType → Summary → Summary
count_line added s = record s { added = s.added + 1 }
count_line removed s = record s { removed = s.removed + 1 }
count_line unchanged s = record s { unchanged = s.unchanged + 1 }

unfoldable pub summarize : Summary → List TextDiffLine → Summary
summarize s [] = s
summarize s (row ∷ rows) = summarize (count_line row.type s) rows

pub record PlainTextCompareResult : Type 0 where
  pub base_snapshot_id : Text
  pub target_snapshot_id : Text
  pub summary : Summary
  pub lines : List TextDiffLine

unfoldable pub compare_plain_text_snapshots : Text → Text → Text → Text → PlainTextCompareResult
unfolding split_lines diff_lines summarize
compare_plain_text_snapshots base_snapshot_id target_snapshot_id base_body target_body =
    let rows = diff_lines (split_lines base_body) (split_lines target_body) in
    record {
      base_snapshot_id = base_snapshot_id;
      target_snapshot_id = target_snapshot_id;
      summary = summarize (record { added = 0; removed = 0; unchanged = 0 }) rows;
      lines = rows;
    }
