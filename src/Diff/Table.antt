-- ===== src/Diff/Table.antt =====
-- compare.ts: the table `dp` holds the lengths of longest common subsequences.
use forge_hub.Base.{
  List, Text, [], ap, arith, drop, get_elem?, if◌then◌else◌, length, max, refl, some, suc, zero, ℕ,
  ◌+◌, ◌===◌, ◌∷◌, ◌≡◌, ◌≤◌, text-Eq,
}
use forge_hub.Diff.{fill_row, head_or_zero, zeros, fill_table, cell, head_row}

-- The recurrence that the table tabulates.
unfoldable pub lcs : List Text → List Text → ℕ
lcs [] new_lines = 0
lcs (a ∷ old_lines) [] = 0
lcs (a ∷ old_lines) (b ∷ new_lines) =
    let both = lcs old_lines new_lines in
    let without_old = lcs old_lines (b ∷ new_lines) in
    let without_new = lcs (a ∷ old_lines) new_lines in
    if a === b then 1 + both else max without_old without_new

-- The row that the recurrence asks for: one entry for each suffix of the new lines.
lcs_row : List Text → List Text → List ℕ
lcs_row old_lines [] = lcs old_lines [] ∷ []
lcs_row old_lines (b ∷ bs) = lcs old_lines (b ∷ bs) ∷ lcs_row old_lines bs

lcs-nil : (old_lines : List Text) → lcs old_lines [] ≡ 0
unfolding lcs
lcs-nil [] = refl
lcs-nil (a ∷ old_lines) = refl

head_or_zero-lcs_row :
    (old_lines new_lines : List Text)
    → head_or_zero (lcs_row old_lines new_lines) ≡ lcs old_lines new_lines
unfolding lcs_row
head_or_zero-lcs_row old_lines [] = refl
head_or_zero-lcs_row old_lines (b ∷ bs) = refl

zeros-lcs_row : (new_lines : List Text) → zeros new_lines ≡ lcs_row [] new_lines
unfolding lcs_row lcs
zeros-lcs_row [] = refl
zeros-lcs_row (b ∷ bs) = ap (λ r. 0 ∷ r) (zeros-lcs_row bs)

fill_row-lcs_row :
    (a : Text) (old_lines new_lines : List Text)
    → fill_row a new_lines (lcs_row old_lines new_lines) ≡ lcs_row (a ∷ old_lines) new_lines
unfolding fill_row lcs_row lcs
fill_row-lcs_row a old_lines [] = refl
fill_row-lcs_row a old_lines (b ∷ bs) = rw (
  fill_row-lcs_row a old_lines bs,
  head_or_zero-lcs_row old_lines bs,
  head_or_zero-lcs_row (a ∷ old_lines) bs,
)

get-lcs_row :
    (old_lines new_lines : List Text) (j : ℕ)
    → j ≤ length new_lines
    → get_elem? (lcs_row old_lines new_lines) j ≡ some (lcs old_lines (drop j new_lines))
unfolding lcs_row
get-lcs_row old_lines [] zero h = refl
get-lcs_row old_lines [] (suc j) h = absurd (omega arith)
get-lcs_row old_lines (b ∷ bs) zero h = refl
get-lcs_row old_lines (b ∷ bs) (suc j) h = get-lcs_row old_lines bs j (omega arith)

head_row-fill_table :
    (old_lines new_lines : List Text)
    → head_row (fill_table old_lines new_lines) ≡ lcs_row old_lines new_lines
unfolding fill_table
head_row-fill_table [] new_lines = zeros-lcs_row new_lines
head_row-fill_table (a ∷ old_lines) new_lines =
    rw (head_row-fill_table old_lines new_lines) (fill_row-lcs_row a old_lines new_lines)

get-fill_table :
    (old_lines new_lines : List Text) (i : ℕ)
    → i ≤ length old_lines
    → get_elem? (fill_table old_lines new_lines) i ≡ some (lcs_row (drop i old_lines) new_lines)
unfolding fill_table
get-fill_table [] new_lines zero h = ap some (zeros-lcs_row new_lines)
get-fill_table [] new_lines (suc i) h = absurd (omega arith)
get-fill_table (a ∷ old_lines) new_lines zero h =
    ap some (head_row-fill_table (a ∷ old_lines) new_lines)
get-fill_table (a ∷ old_lines) new_lines (suc i) h =
    get-fill_table old_lines new_lines i (omega arith)

-- Every cell of the table that the loops fill holds the length of a longest common subsequence of
-- the old lines from `i` and the new lines from `j`, as the recurrence gives it.
pub cell-fill_table :
    (old_lines new_lines : List Text) (i j : ℕ)
    → i ≤ length old_lines
    → j ≤ length new_lines
    → cell (fill_table old_lines new_lines) i j ≡ lcs (drop i old_lines) (drop j new_lines)
unfolding cell
cell-fill_table old_lines new_lines i j hi hj =
    rw (get-fill_table old_lines new_lines i hi, get-lcs_row (drop i old_lines) new_lines j hj)
