-- ===== src/Hunks/Web.antt =====
-- apps/web/src/lib/textMergeHunks.ts: the web app's copy of the grouping, which numbers from 1.
use forge_hub.Base.{
  List, Option, Text, [], append-nil, append_assoc, arith, if◌then◌else◌, insert, le_refl, le_trans,
  length, ltb, map, refl, suc, sym, zero, ℕ, ◌++◌, ◌+◌, ◌<◌, ◌||◌, ◌∷◌, ◌≡◌, ◌≤◌, text-Eq,
}
use forge_hub.Diff.{TextDiffLine, added, removed, unchanged, LineType}
use forge_hub.Hunks.{
  TextMergeHunk, group_plain_text_hunks, is_unchanged, take_run, Run, TextHunkSide, hunk_id,
}
use forge_hub.Hunks.Grouping.{
  hunk_of, hunks_outside, hunks_inside, take_run-length, group_plain_text_hunks-outside,
  hunks_inside-take_run,
}

-- `hunkIndex` and `hunks`, after a run.
abbrev pub push_web_hunk : ℕ → List TextMergeHunk → Run → ℕ × List TextMergeHunk
push_web_hunk hunk_index hunks run =
    if ltb 0 (length run.0) || ltb 0 (length run.1)
    then (hunk_index + 1, hunks ++ hunk_of (hunk_index + 1) run.0 run.1 ∷ [])
    else (hunk_index, hunks)

unfoldable pub web_group_from : ℕ → ℕ → List TextMergeHunk → List TextDiffLine → List TextMergeHunk
web_group_from zero hunk_index hunks lines = hunks
web_group_from (suc f) hunk_index hunks [] = hunks
web_group_from (suc f) hunk_index hunks (row ∷ rows) =
    let skip = web_group_from f hunk_index hunks rows in
    let next =
      let run = take_run (row ∷ rows) [] [] in
      let pushed = push_web_hunk hunk_index hunks run in web_group_from f pushed.0 pushed.1 run.2 in
    if is_unchanged row.type then skip else next

unfoldable pub web_group_plain_text_hunks : List TextDiffLine → List TextMergeHunk
unfolding web_group_from take_run
web_group_plain_text_hunks lines = web_group_from (length lines) 0 [] lines

-- `defaultHunkSides`
unfoldable pub default_hunk_sides :
    List TextMergeHunk → TextHunkSide → List (Text × TextHunkSide) → List (Text × TextHunkSide)
default_hunk_sides [] side out = out
default_hunk_sides (h ∷ hs) side out = default_hunk_sides hs side (insert h.id side out)

abbrev Finds : ℕ → Type 0
Finds f =
    (k : ℕ) (hunks : List TextMergeHunk) (lines : List TextDiffLine)
    → length lines ≤ f
    → web_group_from f k hunks lines ≡ hunks ++ hunks_outside lines (k + 1)

web_group_from-run :
    (f k : ℕ) (hunks : List TextMergeHunk) (rows : List TextDiffLine)
    (base_lines incoming_lines : List Text)
    → 0 < length base_lines + length incoming_lines
    → Finds f
    → length rows ≤ f
    → let run = take_run rows base_lines incoming_lines in
      let pushed = push_web_hunk k hunks run in
      web_group_from f pushed.0 pushed.1 run.2
      ≡ hunks ++ hunks_inside rows (k + 1) base_lines incoming_lines
web_group_from-run f k hunks rows base_lines incoming_lines some_line ih h =
    let run = take_run rows base_lines incoming_lines in
    let next = hunk_of (k + 1) run.0 run.1 in
    let (_, _, short) = take_run-length rows base_lines incoming_lines in
    ground (
      arith,
      take_run-length rows base_lines incoming_lines,
      hunks_inside-take_run rows (k + 1) base_lines incoming_lines,
      ih (k + 1) (hunks ++ next ∷ []) run.2 (le_trans short h),
      append_assoc hunks (next ∷ []) (hunks_outside run.2 (k + 1 + 1)),
    )

web_group_from-row :
    (f k : ℕ) (hunks : List TextMergeHunk) (t : LineType) (s : Text) (o n : Option ℕ)
    (rows : List TextDiffLine)
    → Finds f
    → length rows ≤ f
    → let row : TextDiffLine = record { type = t; content = s; old_line = o; new_line = n } in
      web_group_from (suc f) k hunks (row ∷ rows) ≡ hunks ++ hunks_outside (row ∷ rows) (k + 1)
unfolding web_group_from hunks_outside take_run
web_group_from-row f k hunks unchanged s o n rows ih h = ih k hunks rows h
web_group_from-row f k hunks removed s o n rows ih h =
    web_group_from-run f k hunks rows (s ∷ []) [] (omega arith) ih h
web_group_from-row f k hunks added s o n rows ih h =
    web_group_from-run f k hunks rows [] (s ∷ []) (omega arith) ih h

web_group_from-hunks : (f : ℕ) → Finds f
unfolding web_group_from hunks_outside
web_group_from-hunks zero k hunks [] h = sym (append-nil hunks)
web_group_from-hunks zero k hunks (row ∷ rows) h = absurd (omega arith)
web_group_from-hunks (suc f) k hunks [] h = sym (append-nil hunks)
web_group_from-hunks (suc f) k hunks (row ∷ rows) h =
    web_group_from-row f k hunks row.type row.content row.old_line row.new_line rows
      (web_group_from-hunks f) (omega arith)

unfoldable pub ids_from : ℕ → ℕ → List Text
ids_from k zero = []
ids_from k (suc n) = hunk_id k ∷ ids_from (k + 1) n

abbrev pub lines_of : TextMergeHunk → List Text × List Text
lines_of h = (h.base_lines, h.incoming_lines)

abbrev Shifts : List TextMergeHunk → List TextMergeHunk → ℕ → ℕ → Type 0
Shifts hs ks k m =
    (map lines_of hs ≡ map lines_of ks)
    × (map (λ h. h.id) hs ≡ ids_from k (length hs))
    × (map (λ h. h.id) ks ≡ ids_from m (length hs))

mutual
  unfolding hunks_outside hunks_inside ids_from

  outside_shift :
      (rows : List TextDiffLine) (k m : ℕ)
      → Shifts (hunks_outside rows k) (hunks_outside rows m) k m
  outside_shift [] k m = (refl, refl, refl)
  outside_shift (row ∷ rows) k m = ground (
    arith,
    outside_shift rows k m,
    inside_shift rows k m (row.content ∷ []) [],
    inside_shift rows k m [] (row.content ∷ []),
  )

  inside_shift :
      (rows : List TextDiffLine) (k m : ℕ) (b i : List Text)
      → Shifts (hunks_inside rows k b i) (hunks_inside rows m b i) k m
  inside_shift [] k m b i = (refl, refl, refl)
  inside_shift (row ∷ rows) k m b i = ground (
    arith,
    outside_shift rows (k + 1) (m + 1),
    inside_shift rows k m (b ++ row.content ∷ []) i,
    inside_shift rows k m b (i ++ row.content ∷ []),
  )

-- The API and the web app cut a diff into the same hunks, but the API names them h0, h1, … and the
-- web app h1, h2, ….
pub web_group_plain_text_hunks-shifted :
    (lines : List TextDiffLine)
    → let api = group_plain_text_hunks lines in
      let web = web_group_plain_text_hunks lines in
      (map lines_of api ≡ map lines_of web)
      × (map (λ h. h.id) api ≡ ids_from 0 (length api))
      × (map (λ h. h.id) web ≡ ids_from 1 (length api))
unfolding web_group_plain_text_hunks
web_group_plain_text_hunks-shifted lines =
    rw
      (
        group_plain_text_hunks-outside lines,
        web_group_from-hunks (length lines) 0 [] lines (le_refl _),
      )
      (outside_shift lines 0 1)
