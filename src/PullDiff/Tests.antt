-- ===== src/PullDiff/Tests.antt =====
-- Examples of diffLayout.ts.
use forge_hub.Base.{
  List, [], arith, filter, inl, inr, negsuc, none, pos, refl, some, ℕ, ◌↔◌, ◌∷◌, ◌≡◌,
}
use forge_hub.PullDiff.{
  DiffLine, context, add_line, remove_line, split_rows, hunk_gaps, split_from, gaps_from, pair_rows,
  min_of, max_of,
}
use forge_hub.PullDiff.Rows.{lefts, is_old, rights, is_new, split_rows-sides}
use forge_hub.PullDiff.Gaps.{IsHidden, IsShown, hunk_gaps_iff}

abbrev kept_line : ℕ → ℕ → DiffLine
kept_line o n = record { type = context; content = []; old_line_no = some o; new_line_no = some n }

abbrev removed_line : ℕ → DiffLine
removed_line o = record {
  type = remove_line;
  content = [];
  old_line_no = some o;
  new_line_no = none;
}

abbrev added_line : ℕ → DiffLine
added_line n = record { type = add_line; content = []; old_line_no = none; new_line_no = some n }

-- Two removals and an addition, then a line of both sides.
abbrev first_hunk : List DiffLine
first_hunk = kept_line 3 3 ∷ removed_line 4 ∷ removed_line 5 ∷ added_line 4 ∷ kept_line 6 5 ∷ []

-- A hunk that only removes.
abbrev last_hunk : List DiffLine
last_hunk = removed_line 9 ∷ []

first_rows :
    split_rows first_hunk
    ≡ record { left = some (kept_line 3 3); right = some (kept_line 3 3) }
      ∷ record { left = some (removed_line 4); right = some (added_line 4) }
      ∷ record { left = some (removed_line 5); right = none }
      ∷ record { left = some (kept_line 6 5); right = some (kept_line 6 5) }
      ∷ []
unfolding split_rows split_from pair_rows
first_rows = refl

first_gaps :
    hunk_gaps (first_hunk ∷ []) 7
    ≡ record { before = 0; from = 1; to = 2; offset = pos 0 }
      ∷ record { before = 1; from = 6; to = 7; offset = negsuc 0 }
      ∷ []
unfolding hunk_gaps gaps_from min_of max_of
first_gaps = refl

split_rows-sides_example :
    (lefts (split_rows first_hunk) ≡ filter is_old first_hunk)
    × (rights (split_rows first_hunk) ≡ filter is_new first_hunk)
split_rows-sides_example = split_rows-sides first_hunk

hunk_gaps_iff_example :
    IsHidden 6 (hunk_gaps (first_hunk ∷ last_hunk ∷ []) 7)
    ↔ ¬ IsShown 6 (first_hunk ∷ last_hunk ∷ [])
hunk_gaps_iff_example =
    hunk_gaps_iff (first_hunk ∷ last_hunk ∷ []) 7 6 (inr (3, 2, omega arith, refl, inl (refl, tt)))
      (omega arith) (omega arith)
