-- ===== src/Hunks/Merging.antt =====
-- text-hunks.ts: the merged text in one pass over the rows, and the proof that the loop writes it.
use forge_hub.Base.{
  Bool, List, Option, Text, [], ap, append-nil, append_assoc, arith, false, get_elem?,
  get_elem?-append_length, get_or, if◌then◌else◌, join_with, le_refl, le_trans, length,
  length-append, lookup, none, refl, some, suc, sym, true, zero, ℕ, ◌++◌, ◌+◌, ◌∙◌, ◌∷◌, ◌≡◌, ◌≤◌,
  text-Eq,
}
use forge_hub.Diff.{TextDiffLine, added, removed, unchanged, LineType}
use forge_hub.Hunks.{
  TextMergeHunk, take_run, base, incoming, TextHunkSide, skip_run, pick, hunk_id, merge_from,
  materialize_plain_text_merge, group_plain_text_hunks, joined_lines,
}
use forge_hub.Hunks.Grouping.{
  hunk_of, hunks_outside, hunks_inside, hunks_inside-take_run, take_run-length,
  group_plain_text_hunks-outside,
}

abbrev pub put_if : TextHunkSide → TextHunkSide → Text → List Text → List Text
put_if base base s rest = s ∷ rest
put_if incoming incoming s rest = s ∷ rest
put_if base incoming s rest = rest
put_if incoming base s rest = rest

-- Row by row: an unchanged line is written; a removed one if the base side of its hunk is picked; an
-- added one if the incoming side is. Hunk `k` ends at the next unchanged line.
unfoldable pub merged : (ℕ → TextHunkSide) → Bool → ℕ → List TextDiffLine → List Text
merged side in_run k [] = []
merged side in_run k (row ∷ rows) = elim row.type [
  | unchanged ↦ row.content ∷ merged side false (if in_run then k + 1 else k) rows
  | removed ↦ put_if base (side k) row.content (merged side true k rows)
  | added ↦ put_if incoming (side k) row.content (merged side true k rows)
]

skip_run-take_run :
    (rows : List TextDiffLine) (base_lines incoming_lines : List Text)
    → skip_run rows ≡ (take_run rows base_lines incoming_lines).2
unfolding skip_run take_run
skip_run-take_run [] base_lines incoming_lines = refl
skip_run-take_run (row ∷ rows) base_lines incoming_lines = ground (
  arith,
  skip_run-take_run rows (base_lines ++ row.content ∷ []) incoming_lines,
  skip_run-take_run rows base_lines (incoming_lines ++ row.content ∷ []),
)

pick-put_if :
    (side of_row : TextHunkSide) (s : Text) (base_lines incoming_lines rest : List Text)
    → pick side base_lines incoming_lines ++ put_if of_row side s rest
      ≡ pick side
          (pick of_row (base_lines ++ s ∷ []) base_lines)
          (pick of_row incoming_lines (incoming_lines ++ s ∷ []))
        ++ rest
pick-put_if base base s b i rest = sym (append_assoc b (s ∷ []) rest)
pick-put_if incoming incoming s b i rest = sym (append_assoc i (s ∷ []) rest)
pick-put_if base incoming s b i rest = refl
pick-put_if incoming base s b i rest = refl

pick-removed :
    (side : TextHunkSide) (s : Text) (rest : List Text)
    → pick side (s ∷ []) [] ++ rest ≡ put_if base side s rest
pick-removed base s rest = refl
pick-removed incoming s rest = refl

pick-added :
    (side : TextHunkSide) (s : Text) (rest : List Text)
    → pick side [] (s ∷ []) ++ rest ≡ put_if incoming side s rest
pick-added base s rest = refl
pick-added incoming s rest = refl

module _ (side : ℕ → TextHunkSide) where
  abbrev PicksRun : ℕ → List TextDiffLine → Type 0
  PicksRun k rows =
      (base_lines incoming_lines : List Text)
      → let run = take_run rows base_lines incoming_lines in
        pick (side k) base_lines incoming_lines ++ merged side true k rows
        ≡ pick (side k) run.0 run.1 ++ merged side false (k + 1) run.2

  merged-row :
      (k : ℕ) (t : LineType) (s : Text) (o n : Option ℕ) (rows : List TextDiffLine)
      → PicksRun k rows
      → PicksRun k (record { type = t; content = s; old_line = o; new_line = n } ∷ rows)
  unfolding merged take_run
  merged-row k unchanged s o n rows ih b i = refl
  merged-row k removed s o n rows ih b i =
      pick-put_if (side k) base s b i (merged side true k rows) ∙ ih (b ++ s ∷ []) i
  merged-row k added s o n rows ih b i =
      pick-put_if (side k) incoming s b i (merged side true k rows) ∙ ih b (i ++ s ∷ [])

  -- The rows of a run write the lines of the picked side.
  merged-take_run : (k : ℕ) (rows : List TextDiffLine) → PicksRun k rows
  unfolding merged take_run
  merged-take_run k [] = λ b i. refl
  merged-take_run k (row ∷ rows) =
      merged-row k row.type row.content row.old_line row.new_line rows (merged-take_run k rows)

-- The side that the loop reads for hunk `k`.
abbrev pub side_of : List (Text × TextHunkSide) → TextHunkSide → ℕ → TextHunkSide
side_of hunk_sides default_side k = get_or (lookup (hunk_id k) hunk_sides) default_side

module _ (hunks : List TextMergeHunk) (hunk_sides : List (Text × TextHunkSide))
    (default_side : TextHunkSide) where
  -- The loop at `k` is right if the hunks from `k` on are those of the rows that are left.
  abbrev Writes : ℕ → Type 0
  Writes f =
      (pre : List TextMergeHunk) (out : List Text) (lines : List TextDiffLine)
      → hunks ≡ pre ++ hunks_outside lines (length pre)
      → length lines ≤ f
      → merge_from f hunks hunk_sides default_side (length pre) out lines
        ≡ some (out ++ merged (side_of hunk_sides default_side) false (length pre) lines)

  -- One round at a hunk whose first row has given the lines `base_lines` and `incoming_lines`.
  write_run :
      (f : ℕ) (pre : List TextMergeHunk) (out : List Text) (rows : List TextDiffLine)
      (base_lines incoming_lines : List Text)
      → Writes f
      → hunks ≡ pre ++ hunks_inside rows (length pre) base_lines incoming_lines
      → length rows ≤ f
      → let run = take_run rows base_lines incoming_lines in
        let side = side_of hunk_sides default_side in
        (elim (get_elem? hunks (length pre)) [
          | none ↦ none
          | some hunk ↦
              merge_from f hunks hunk_sides default_side
                (length pre + 1)
                (out
                  ++ pick
                      (get_or (lookup hunk.id hunk_sides) default_side)
                      hunk.base_lines
                      hunk.incoming_lines)
                (skip_run rows)
        ])
        ≡ some (
            out
            ++ (pick (side (length pre)) base_lines incoming_lines
                ++ merged side true (length pre) rows))
  write_run f pre out rows base_lines incoming_lines ih same h =
      let run = take_run rows base_lines incoming_lines in
      let hunk = hunk_of (length pre) run.0 run.1 in
      let side = side_of hunk_sides default_side in
      let written = pick (side (length pre)) run.0 run.1 in
      let found =
        same
        ∙ ap (λ t. pre ++ t) (hunks_inside-take_run rows (length pre) base_lines incoming_lines) in
      let size = length-append pre (hunk ∷ []) in
      let at_hunk = ap (λ t. get_elem? t (length pre)) found ∙ get_elem?-append_length pre hunk _ in
      let (_, _, short) = take_run-length rows base_lines incoming_lines in
      let next =
        ih (pre ++ hunk ∷ []) (out ++ written) run.2 (found ∙ rw (size, append_assoc) refl)
          (le_trans short h) in
      let rest = merged side false (length pre + 1) run.2 in
      let joined =
        append_assoc out written rest
        ∙ ap (λ t. out ++ t)
            (sym (merged-take_run side (length pre) rows base_lines incoming_lines)) in
      rw (at_hunk, skip_run-take_run rows base_lines incoming_lines)
        ((rw size at next) ∙ ap some joined)

  merge_from-row :
      (f : ℕ) (pre : List TextMergeHunk) (out : List Text) (t : LineType) (s : Text)
      (o n : Option ℕ) (rows : List TextDiffLine)
      → Writes f
      → length rows ≤ f
      → let row : TextDiffLine = record { type = t; content = s; old_line = o; new_line = n } in
        hunks ≡ pre ++ hunks_outside (row ∷ rows) (length pre)
        → merge_from (suc f) hunks hunk_sides default_side (length pre) out (row ∷ rows)
          ≡ some (out ++ merged (side_of hunk_sides default_side) false (length pre) (row ∷ rows))
  unfolding merge_from merged hunks_outside skip_run
  merge_from-row f pre out unchanged s o n rows ih h same =
      ih pre (out ++ s ∷ []) rows same h ∙ ap some (append_assoc out (s ∷ []) _)
  merge_from-row f pre out removed s o n rows ih h same =
      write_run f pre out rows (s ∷ []) [] ih same h
      ∙ ap (λ t. some (out ++ t)) (pick-removed (side_of hunk_sides default_side (length pre)) s _)
  merge_from-row f pre out added s o n rows ih h same =
      write_run f pre out rows [] (s ∷ []) ih same h
      ∙ ap (λ t. some (out ++ t)) (pick-added (side_of hunk_sides default_side (length pre)) s _)

  merge_from-merged : (f : ℕ) → Writes f
  unfolding merge_from merged
  merge_from-merged f pre out [] same h = ap some (sym (append-nil out))
  merge_from-merged zero pre out (row ∷ rows) same h = absurd (omega arith)
  merge_from-merged (suc f) pre out (row ∷ rows) same h =
      merge_from-row f pre out row.type row.content row.old_line row.new_line rows
        (merge_from-merged f) (omega arith) same

-- The two nested loops never read a hunk that is not there, and write what the single pass writes:
-- the unchanged lines, and of each hunk the lines of the side that is picked for its id.
pub materialize_plain_text_merge-merged :
    (lines : List TextDiffLine) (hunk_sides : List (Text × TextHunkSide))
    (default_side : TextHunkSide)
    → materialize_plain_text_merge lines hunk_sides default_side
      ≡ some (join_with 10 (merged (side_of hunk_sides default_side) false 0 lines))
unfolding materialize_plain_text_merge
materialize_plain_text_merge-merged lines hunk_sides default_side =
    ap (λ r. joined_lines r)
      (merge_from-merged (group_plain_text_hunks lines) hunk_sides default_side (length lines) [] []
        lines (group_plain_text_hunks-outside lines) (le_refl _))
