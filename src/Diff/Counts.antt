-- ===== src/Diff/Counts.antt =====
-- compare.ts: the summary counts the lines of both texts.
use forge_hub.Base.{List, Text, [], ap, arith, length, refl, suc, ℕ, ◌+◌, ◌∷◌, ◌≡◌}
use forge_hub.Diff.Subsequence.{kept}
use forge_hub.Diff.Rebuild.{sides, sides-diff_lines, numbered}
use forge_hub.Diff.{
  TextDiffLine, summarize, Summary, compare_plain_text_snapshots, count_line, split_lines,
  diff_lines,
}

counts-summarize :
    (s : Summary) (rows : List TextDiffLine)
    → ((summarize s rows).unchanged ≡ s.unchanged + length (kept rows))
      × ((summarize s rows).removed + (summarize s rows).unchanged
          ≡ s.removed + s.unchanged + length (sides rows).0)
      × ((summarize s rows).added + (summarize s rows).unchanged
          ≡ s.added + s.unchanged + length (sides rows).1)
unfolding summarize kept sides
counts-summarize s [] = omega arith
counts-summarize s (row ∷ rows) = ground (arith, counts-summarize (count_line row.type s) rows)

length-numbered : (n : ℕ) (ss : List Text) → length (numbered n ss) ≡ length ss
unfolding numbered
length-numbered n [] = refl
length-numbered n (s ∷ ss) = ap suc (length-numbered (n + 1) ss)

-- The summary of a comparison accounts for every line of the base text (removed or unchanged) and
-- of the target text (added or unchanged), and its unchanged lines are those of the diff.
pub summary-compare_plain_text_snapshots :
    (base_id target_id base_body target_body : Text)
    → let result = compare_plain_text_snapshots base_id target_id base_body target_body in
      (result.summary.removed + result.summary.unchanged ≡ length (split_lines base_body))
      × (result.summary.added + result.summary.unchanged ≡ length (split_lines target_body))
      × (result.summary.unchanged ≡ length (kept result.lines))
unfolding compare_plain_text_snapshots
summary-compare_plain_text_snapshots base_id target_id base_body target_body =
    let old_lines = split_lines base_body in
    let new_lines = split_lines target_body in
    let rows = diff_lines old_lines new_lines in
    let start : Summary = record { added = 0; removed = 0; unchanged = 0 } in
    let (same, old_count, new_count) = counts-summarize start rows in
    let shown = sides-diff_lines old_lines new_lines in
    omega (
      arith,
      same,
      old_count,
      new_count,
      ap (λ p. length p.0) shown,
      ap (λ p. length p.1) shown,
      length-numbered 1 old_lines,
      length-numbered 1 new_lines,
    )
