-- ===== src/Diff/Tests.antt =====
-- compare.ts at concrete texts.
use forge_hub.Base.{List, Text, [], codes, length, refl, ◌∷◌, ◌≡◌, ◌≤◌, text-Eq}
use forge_hub.Diff.{
  compare_plain_text_snapshots, unchanged_line, diff_lines, removed_line, added_line,
}
use forge_hub.Diff.Subsequence.{kept-diff_lines-longest, kept, IsSub}
use forge_hub.Diff.Rebuild.{sides, sides-diff_lines, numbered}

abbrev old_text : Text
old_text = codes "one\ntwo\nthree\n"

abbrev new_text : Text
new_text = codes "one\nthree\r\nfour"

compared :
    (compare_plain_text_snapshots [] [] old_text new_text).lines
    ≡ unchanged_line (codes "one") 1 1
      ∷ removed_line (codes "two") 2
      ∷ unchanged_line (codes "three") 3 2
      ∷ added_line (codes "four") 3
      ∷ []
unfolding compare_plain_text_snapshots
compared = refl

abbrev two_lines : List Text
two_lines = codes "a" ∷ codes "b" ∷ []

kept-diff_lines-longest_example :
    IsSub (kept (diff_lines two_lines (codes "b" ∷ []))) two_lines
    × IsSub (kept (diff_lines two_lines (codes "b" ∷ []))) (codes "b" ∷ [])
    × ((s : List Text)
        → IsSub s two_lines
        → IsSub s (codes "b" ∷ [])
        → length s ≤ length (kept (diff_lines two_lines (codes "b" ∷ []))))
kept-diff_lines-longest_example = kept-diff_lines-longest two_lines (codes "b" ∷ [])

sides-diff_lines_example :
    sides (diff_lines two_lines (codes "b" ∷ []))
    ≡ (numbered 1 two_lines, numbered 1 (codes "b" ∷ []))
sides-diff_lines_example = sides-diff_lines two_lines (codes "b" ∷ [])
