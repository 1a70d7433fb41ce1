-- ===== src/PullDiff.antt =====
-- apps/web/src/pages/repo/pulls/diffLayout.ts: the rows of the split view, and the unchanged lines
-- that a diff hides. Line numbers are natural numbers, which start at 1.
pub mod Rows
pub mod Gaps
mod Tests
use forge_hub.Base.{
  Bool, List, Option, Text, [], false, filter_map, get_or, if◌then◌else◌, leb, length, ltb, max,
  min, none, some, sub_ℕ, suc, true, zero, ℕ, ℤ, ◌++◌, ◌+◌, ◌-◌, ◌∷◌,
}

pub data DiffLineType : Type 0 where
  context : DiffLineType
  add_line : DiffLineType
  remove_line : DiffLineType

pub record DiffLine : Type 0 where
  pub type : DiffLineType
  pub content : Text
  pub old_line_no : Option ℕ
  pub new_line_no : Option ℕ

pub record SplitRow : Type 0 where
  pub left : Option DiffLine
  pub right : Option DiffLine

abbrev pub is_context : DiffLineType → Bool
is_context context = true
is_context _ = false

abbrev pub is_remove : DiffLineType → Bool
is_remove remove_line = true
is_remove _ = false

abbrev pub is_add : DiffLineType → Bool
is_add add_line = true
is_add _ = false

-- The lines that a `while` of the pairing collects, and those that it leaves.
abbrev pub run_of : (DiffLineType → Bool) → List DiffLine → List DiffLine
run_of p [] = []
run_of p (line ∷ lines) = let rest = run_of p lines in if p line.type then line ∷ rest else []

abbrev pub after_run : (DiffLineType → Bool) → List DiffLine → List DiffLine
after_run p [] = []
after_run p (line ∷ lines) =
    let rest = after_run p lines in if p line.type then rest else line ∷ lines

-- The rows of a run of removals and the additions after it.
unfoldable pub pair_rows : List DiffLine → List DiffLine → List SplitRow
pair_rows [] [] = []
pair_rows (l ∷ ls) [] = record { left = some l; right = none } ∷ pair_rows ls []
pair_rows [] (r ∷ rs) = record { left = none; right = some r } ∷ pair_rows [] rs
pair_rows (l ∷ ls) (r ∷ rs) = record { left = some l; right = some r } ∷ pair_rows ls rs

-- The outer loop; each of its rounds takes a line.
unfoldable pub split_from : ℕ → List DiffLine → List SplitRow
split_from zero lines = []
split_from (suc f) [] = []
split_from (suc f) (line ∷ lines) =
    let rows = record { left = some line; right = some line } ∷ split_from f lines in
    let paired =
      let removed = run_of is_remove (line ∷ lines) in
      let more = after_run is_remove (line ∷ lines) in
      pair_rows removed (run_of is_add more) ++ split_from f (after_run is_add more) in
    if is_context line.type then rows else paired

unfoldable pub split_rows : List DiffLine → List SplitRow
unfolding split_from
split_rows lines = split_from (length lines) lines

pub record Gap : Type 0 where
  pub before : ℕ
  pub from : ℕ
  pub to : ℕ
  pub offset : ℤ

pub record Bounds : Type 0 where
  pub new_start : Option ℕ
  pub new_end : Option ℕ
  pub old_start : Option ℕ
  pub old_end : Option ℕ

-- `Math.min(...ns)` and `Math.max(...ns)`, null for no number.
abbrev pub min_with : ℕ → Option ℕ → ℕ
min_with n none = n
min_with n (some m) = min n m

unfoldable pub min_of : List ℕ → Option ℕ
min_of [] = none
min_of (n ∷ ns) = some (min_with n (min_of ns))

abbrev pub max_with : ℕ → Option ℕ → ℕ
max_with n none = n
max_with n (some m) = max n m

unfoldable pub max_of : List ℕ → Option ℕ
max_of [] = none
max_of (n ∷ ns) = some (max_with n (max_of ns))

-- The numbers of the lines on a side.
abbrev pub new_numbers : List DiffLine → List ℕ
new_numbers lines = filter_map (λ l. l.new_line_no) lines

abbrev pub old_numbers : List DiffLine → List ℕ
old_numbers lines = filter_map (λ l. l.old_line_no) lines

abbrev pub bounds : List DiffLine → Bounds
bounds lines = record {
  new_start = min_of (new_numbers lines);
  new_end = max_of (new_numbers lines);
  old_start = min_of (old_numbers lines);
  old_end = max_of (old_numbers lines);
}

-- The gap above a hunk, if there is one.
abbrev pub gap_above : ℕ → ℕ → ℕ → ℕ → List Gap
gap_above i prev_new_end new_start old_start =
    if leb (prev_new_end + 1) (new_start - 1)
    then record {
      before = i;
      from = prev_new_end + 1;
      to = new_start - 1;
      offset = sub_ℕ new_start old_start;
    }
      ∷ []
    else []

-- The loop over the hunks, from the i-th of them, with the test after it.
unfoldable pub gaps_from : ℕ → ℕ → ℕ → List (List DiffLine) → ℕ → List Gap
gaps_from i prev_new_end prev_old_end [] new_line_count =
    if ltb prev_new_end new_line_count
    then record {
      before = i;
      from = prev_new_end + 1;
      to = new_line_count;
      offset = sub_ℕ prev_new_end prev_old_end;
    }
      ∷ []
    else []
gaps_from i prev_new_end prev_old_end (h ∷ hunks) new_line_count =
    let b = bounds h in
    let new_start = get_or b.new_start (prev_new_end + 1) in
    let old_start = get_or b.old_start (prev_old_end + 1) in
    gap_above i prev_new_end new_start old_start
    ++ gaps_from (i + 1) (get_or b.new_end (new_start - 1)) (get_or b.old_end (old_start - 1)) hunks
        new_line_count

unfoldable pub hunk_gaps : List (List DiffLine) → ℕ → List Gap
unfolding gaps_from
hunk_gaps hunks new_line_count = gaps_from 0 0 0 hunks new_line_count
