-- ===== src/Hunks/Tests.antt =====
-- text-hunks.ts, its web copy and the text branch of resolve-pull.ts at concrete files.
use forge_hub.Base.{
  List, Text, [], codes, false, join_with, length, map, refl, show, some, ◌++◌, ◌∷◌, ◌≡◌, text-Eq,
}
use forge_hub.Diff.{diff_lines, split_lines}
use forge_hub.Hunks.{group_plain_text_hunks, materialize_plain_text_merge, base, incoming}
use forge_hub.Hunks.Merging.{materialize_plain_text_merge-merged, merged, side_of}
use forge_hub.Hunks.Web.{
  web_group_plain_text_hunks, lines_of, ids_from, web_group_plain_text_hunks-shifted,
}
use forge_hub.Hunks.Resolve.Outcome.{resolve_text-IsResolution, IsResolution}
use forge_hub.Hunks.Resolve.{
  resolve_text, unknown_hunk, materialize_plain_text_merge-diff_lines, HunkPick, content,
  resolve_text-loses_newline,
}

abbrev old_lines : List Text
old_lines = codes "a" ∷ codes "b" ∷ codes "c" ∷ []

abbrev new_lines : List Text
new_lines = codes "x" ∷ codes "b" ∷ codes "y" ∷ []

grouped :
    map (λ h. h.id) (group_plain_text_hunks (diff_lines old_lines new_lines))
    ≡ codes "h0" ∷ codes "h1" ∷ []
unfolding group_plain_text_hunks diff_lines show
grouped = refl

mixed_sides :
    materialize_plain_text_merge (diff_lines old_lines new_lines) ((codes "h0", base) ∷ []) incoming
    ≡ some (codes "a\nb\ny")
unfolding materialize_plain_text_merge diff_lines show join_with
mixed_sides = refl

-- A pick that the web app's numbering gives for the last of two hunks.
web_pick :
    resolve_text [] []
      (codes "a\nb\nc\n")
      (codes "x\nb\ny\n")
      (record { hunk_id = codes "h2"; side = base } ∷ [])
    ≡ unknown_hunk (codes "h2")
unfolding resolve_text show
web_pick = refl

materialize_plain_text_merge-merged_example :
    materialize_plain_text_merge (diff_lines old_lines new_lines) [] base
    ≡ some (join_with 10 (merged (side_of [] base) false 0 (diff_lines old_lines new_lines)))
materialize_plain_text_merge-merged_example =
    materialize_plain_text_merge-merged (diff_lines old_lines new_lines) [] base

materialize_plain_text_merge-diff_lines_example :
    (materialize_plain_text_merge (diff_lines old_lines new_lines) [] base
      ≡ some (join_with 10 old_lines))
    × (materialize_plain_text_merge (diff_lines old_lines new_lines) [] incoming
        ≡ some (join_with 10 new_lines))
materialize_plain_text_merge-diff_lines_example =
    materialize_plain_text_merge-diff_lines old_lines new_lines

-- The second pick names no hunk of the diff.
abbrev picks : List HunkPick
picks =
    record { hunk_id = codes "h0"; side = base }
    ∷ record { hunk_id = codes "h7"; side = incoming }
    ∷ []

resolve_text-IsResolution_example :
    IsResolution
      (diff_lines (split_lines (codes "a")) (split_lines (codes "b")))
      picks
      (resolve_text [] [] (codes "a") (codes "b") picks)
resolve_text-IsResolution_example = resolve_text-IsResolution [] [] (codes "a") (codes "b") picks

resolve_text-loses_newline_example :
    resolve_text [] [] (codes "a\n") (codes "b" ++ codes "\n") [] ≡ content (codes "b")
resolve_text-loses_newline_example =
    resolve_text-loses_newline [] [] (codes "a\n") (codes "b") (refl, tt)

web_group_plain_text_hunks-shifted_example :
    let lines = diff_lines old_lines new_lines in
    let api = group_plain_text_hunks lines in
    let web = web_group_plain_text_hunks lines in
    (map lines_of api ≡ map lines_of web)
    × (map (λ h. h.id) api ≡ ids_from 0 (length api))
    × (map (λ h. h.id) web ≡ ids_from 1 (length api))
web_group_plain_text_hunks-shifted_example =
    web_group_plain_text_hunks-shifted (diff_lines old_lines new_lines)
