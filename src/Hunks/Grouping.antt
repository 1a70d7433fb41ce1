-- ===== src/Hunks/Grouping.antt =====
-- text-hunks.ts: the hunks in one pass over the rows, and the proof that the loops find them.
use forge_hub.Base.{
  List, Option, Text, [], append-nil, append_assoc, arith, le_refl, le_trans, length, length-append,
  refl, suc, sym, zero, ℕ, ◌++◌, ◌+◌, ◌<◌, ◌∷◌, ◌≡◌, ◌≤◌,
}
use forge_hub.Diff.{TextDiffLine, added, removed, unchanged, LineType}
use forge_hub.Hunks.{
  TextMergeHunk, take_run, hunk_id, group_from, push_hunk, group_plain_text_hunks,
}

abbrev pub hunk_of : ℕ → List Text → List Text → TextMergeHunk
hunk_of k base_lines incoming_lines = record {
  id = hunk_id k;
  base_lines = base_lines;
  incoming_lines = incoming_lines;
}

unfoldable mutual
  -- The hunks of the rows outside a hunk; `k` hunks stand before.
  pub hunks_outside : List TextDiffLine → ℕ → List TextMergeHunk
  hunks_outside [] k = []
  hunks_outside (row ∷ rows) k = elim row.type [
    | unchanged ↦ hunks_outside rows k
    | removed ↦ hunks_inside rows k (row.content ∷ []) []
    | added ↦ hunks_inside rows k [] (row.content ∷ [])
  ]

  -- The same inside of a hunk with the given lines.
  pub hunks_inside : List TextDiffLine → ℕ → List Text → List Text → List TextMergeHunk
  hunks_inside [] k base_lines incoming_lines = hunk_of k base_lines incoming_lines ∷ []
  hunks_inside (row ∷ rows) k base_lines incoming_lines = elim row.type [
    | unchanged ↦ hunk_of k base_lines incoming_lines ∷ hunks_outside rows (k + 1)
    | removed ↦ hunks_inside rows k (base_lines ++ row.content ∷ []) incoming_lines
    | added ↦ hunks_inside rows k base_lines (incoming_lines ++ row.content ∷ [])
  ]

-- The rows left by a run begin with no hunk.
pub hunks_inside-take_run :
    (rows : List TextDiffLine) (k : ℕ) (base_lines incoming_lines : List Text)
    → let run = take_run rows base_lines incoming_lines in
      hunks_inside rows k base_lines incoming_lines
      ≡ hunk_of k run.0 run.1 ∷ hunks_outside run.2 (k + 1)
unfolding hunks_outside hunks_inside take_run
hunks_inside-take_run [] k base_lines incoming_lines = refl
hunks_inside-take_run (row ∷ rows) k base_lines incoming_lines = ground (
  arith,
  hunks_inside-take_run rows k (base_lines ++ row.content ∷ []) incoming_lines,
  hunks_inside-take_run rows k base_lines (incoming_lines ++ row.content ∷ []),
)

-- A run loses no line, and leaves no more rows than there were.
pub take_run-length :
    (rows : List TextDiffLine) (base_lines incoming_lines : List Text)
    → let run = take_run rows base_lines incoming_lines in
      (length base_lines ≤ length run.0)
      × (length incoming_lines ≤ length run.1)
      × (length run.2 ≤ length rows)
unfolding take_run
take_run-length [] base_lines incoming_lines = omega arith
take_run-length (row ∷ rows) base_lines incoming_lines = ground (
  arith,
  take_run-length rows (base_lines ++ row.content ∷ []) incoming_lines,
  take_run-length rows base_lines (incoming_lines ++ row.content ∷ []),
  length-append base_lines (row.content ∷ []),
  length-append incoming_lines (row.content ∷ []),
)

-- One round of the outer loop at a row that is not unchanged.
group_from-run :
    (f : ℕ) (hunks : List TextMergeHunk) (rows : List TextDiffLine) (k : ℕ)
    (base_lines incoming_lines : List Text)
    → k ≡ length hunks
    → 0 < length base_lines + length incoming_lines
    → let run = take_run rows base_lines incoming_lines in
      (group_from f (hunks ++ hunk_of k run.0 run.1 ∷ []) run.2
        ≡ (hunks ++ hunk_of k run.0 run.1 ∷ [])
          ++ hunks_outside run.2 (length (hunks ++ hunk_of k run.0 run.1 ∷ [])))
      → group_from f (push_hunk hunks run) run.2
        ≡ hunks ++ hunks_inside rows k base_lines incoming_lines
group_from-run f hunks rows k base_lines incoming_lines same some_line ih =
    let run = take_run rows base_lines incoming_lines in
    let next = hunk_of k run.0 run.1 in
    ground (
      arith,
      take_run-length rows base_lines incoming_lines,
      hunks_inside-take_run rows k base_lines incoming_lines,
      length-append hunks (next ∷ []),
      append_assoc hunks (next ∷ []) (hunks_outside run.2 (k + 1)),
    )

abbrev Finds : ℕ → Type 0
Finds f =
    (hunks : List TextMergeHunk) (lines : List TextDiffLine)
    → length lines ≤ f
    → group_from f hunks lines ≡ hunks ++ hunks_outside lines (length hunks)

-- By the type of the row; a record is its fields.
group_from-row :
    (f : ℕ) (hunks : List TextMergeHunk) (t : LineType) (s : Text) (o n : Option ℕ)
    (rows : List TextDiffLine)
    → Finds f
    → length rows ≤ f
    → let row : TextDiffLine = record { type = t; content = s; old_line = o; new_line = n } in
      group_from (suc f) hunks (row ∷ rows) ≡ hunks ++ hunks_outside (row ∷ rows) (length hunks)
unfolding group_from hunks_outside take_run
group_from-row f hunks unchanged s o n rows ih h = ih hunks rows h
group_from-row f hunks removed s o n rows ih h =
    let (_, _, short) = take_run-length rows (s ∷ []) [] in
    group_from-run f hunks rows (length hunks) (s ∷ []) [] refl (omega arith)
      (ih _ (take_run rows (s ∷ []) []).2 (le_trans short h))
group_from-row f hunks added s o n rows ih h =
    let (_, _, short) = take_run-length rows [] (s ∷ []) in
    group_from-run f hunks rows (length hunks) [] (s ∷ []) refl (omega arith)
      (ih _ (take_run rows [] (s ∷ [])).2 (le_trans short h))

-- With a round for each row the loops find the hunks of the single pass.
group_from-hunks : (f : ℕ) → Finds f
unfolding group_from hunks_outside
group_from-hunks zero hunks [] h = sym (append-nil hunks)
group_from-hunks zero hunks (row ∷ rows) h = absurd (omega arith)
group_from-hunks (suc f) hunks [] h = sym (append-nil hunks)
group_from-hunks (suc f) hunks (row ∷ rows) h =
    group_from-row f hunks row.type row.content row.old_line row.new_line rows (group_from-hunks f)
      (omega arith)

pub group_plain_text_hunks-outside :
    (lines : List TextDiffLine) → group_plain_text_hunks lines ≡ hunks_outside lines 0
unfolding group_plain_text_hunks
group_plain_text_hunks-outside lines = group_from-hunks (length lines) [] lines (le_refl _)
