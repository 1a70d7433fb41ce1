-- ===== src/Diff/Rebuild.antt =====
-- compare.ts: a diff holds both texts, line by line and with their line numbers.
use forge_hub.Base.{
  Bool-cases, List, Option, Text, [], inl, inr, leb, refl, some, text_eq_iff, ℕ, ◌+◌, ◌===◌, ◌∷◌,
  ◌≡◌, text-Eq,
}
use forge_hub.Diff.{
  added, removed, unchanged, TextDiffLine, LineType, add_rest, remove_rest, walk, diff_lines, cell,
  fill_table,
}

abbrev pub take_side :
    LineType
    → Option ℕ × Text
    → Option ℕ × Text
    → List (Option ℕ × Text) × List (Option ℕ × Text)
    → List (Option ℕ × Text) × List (Option ℕ × Text)
take_side added o n (old_side, new_side) = (old_side, n ∷ new_side)
take_side removed o n (old_side, new_side) = (o ∷ old_side, new_side)
take_side unchanged o n (old_side, new_side) = (o ∷ old_side, n ∷ new_side)

-- What the rows of a diff show of each text: the lines, and the numbers that stand beside them.
unfoldable pub sides : List TextDiffLine → List (Option ℕ × Text) × List (Option ℕ × Text)
sides [] = ([], [])
sides (row ∷ rows) =
    take_side row.type (row.old_line, row.content) (row.new_line, row.content) (sides rows)

unfoldable pub numbered : ℕ → List Text → List (Option ℕ × Text)
numbered n [] = []
numbered n (s ∷ ss) = (some n, s) ∷ numbered (n + 1) ss

sides-add_rest :
    (m : ℕ) (new_lines : List Text) → sides (add_rest m new_lines) ≡ ([], numbered m new_lines)
unfolding sides add_rest numbered
sides-add_rest m [] = refl
sides-add_rest m (b ∷ new_lines) = rw (sides-add_rest (m + 1) new_lines)

sides-remove_rest :
    (n : ℕ) (old_lines : List Text) → sides (remove_rest n old_lines) ≡ (numbered n old_lines, [])
unfolding sides remove_rest numbered
sides-remove_rest n [] = refl
sides-remove_rest n (a ∷ old_lines) = rw (sides-remove_rest (n + 1) old_lines)

sides-walk :
    (dp : List (List ℕ)) (i j n m : ℕ) (old_lines new_lines : List Text)
    → sides (walk dp i j n m old_lines new_lines) ≡ (numbered n old_lines, numbered m new_lines)
unfolding sides walk numbered
sides-walk dp i j n m [] new_lines = sides-add_rest m new_lines
sides-walk dp i j n m (a ∷ old_lines) [] = sides-remove_rest n (a ∷ old_lines)
sides-walk dp i j n m (a ∷ old_lines) (b ∷ new_lines) = elim (Bool-cases (a === b)) [
  | inl e ↦
      rw (e, sides-walk dp (i + 1) (j + 1) (n + 1) (m + 1) old_lines new_lines)
        (rw ((text_eq_iff a b).0 e))
  | inr e ↦ elim (Bool-cases (leb (cell dp i (j + 1)) (cell dp (i + 1) j))) [
    | inl g ↦ rw (e, g, sides-walk dp (i + 1) j (n + 1) m old_lines (b ∷ new_lines))
    | inr g ↦ rw (e, g, sides-walk dp i (j + 1) n (m + 1) (a ∷ old_lines) new_lines)
  ]
]

-- A diff shows every line of the old text and every line of the new text, each once, in order, and
-- beside its own line number.
pub sides-diff_lines :
    (old_lines new_lines : List Text)
    → sides (diff_lines old_lines new_lines) ≡ (numbered 1 old_lines, numbered 1 new_lines)
unfolding diff_lines
sides-diff_lines old_lines new_lines =
    sides-walk (fill_table old_lines new_lines) 0 0 1 1 old_lines new_lines
