-- ===== src/PullDiff/Rows.antt =====
-- The sides of the split view.
use forge_hub.Base.{
  Bool, Bool-cases, List, Option, [], arith, false, filter, filter_map, inl, inr, le_refl, le_trans,
  length, not, refl, suc, true, zero, ℕ, ◌++◌, ◌∷◌, ◌≡◌, ◌≤◌, ◌⊎◌,
}
use forge_hub.PullDiff.{
  context, add_line, remove_line, DiffLine, DiffLineType, SplitRow, is_remove, is_add, run_of,
  after_run, pair_rows, is_context, split_from, split_rows,
}

-- The lines that a side shows, from the first row to the last.
abbrev pub lefts : List SplitRow → List DiffLine
lefts rows = filter_map (λ r. r.left) rows

abbrev pub rights : List SplitRow → List DiffLine
rights rows = filter_map (λ r. r.right) rows

-- The lines of the old file, and those of the new file.
abbrev pub is_old : DiffLine → Bool
is_old line = not (is_add line.type)

abbrev pub is_new : DiffLine → Bool
is_new line = not (is_remove line.type)

filter_map-append :
    {A B : Type 0} (f : A → Option B) (xs ys : List A)
    → filter_map f (xs ++ ys) ≡ filter_map f xs ++ filter_map f ys
filter_map-append f [] ys = refl
filter_map-append f (x ∷ xs) ys = ground (arith, filter_map-append f xs ys)

lefts-pair_rows : (ls rs : List DiffLine) → lefts (pair_rows ls rs) ≡ ls
unfolding pair_rows
lefts-pair_rows [] [] = refl
lefts-pair_rows (l ∷ ls) [] = rw (lefts-pair_rows ls [])
lefts-pair_rows [] (r ∷ rs) = lefts-pair_rows [] rs
lefts-pair_rows (l ∷ ls) (r ∷ rs) = rw (lefts-pair_rows ls rs)

rights-pair_rows : (ls rs : List DiffLine) → rights (pair_rows ls rs) ≡ rs
unfolding pair_rows
rights-pair_rows [] [] = refl
rights-pair_rows (l ∷ ls) [] = rights-pair_rows ls []
rights-pair_rows [] (r ∷ rs) = rw (rights-pair_rows [] rs)
rights-pair_rows (l ∷ ls) (r ∷ rs) = rw (rights-pair_rows ls rs)

-- A run whose lines are of a side, and a run whose lines are not.
filter-run_of :
    (p : DiffLineType → Bool) (q : DiffLine → Bool) (lines : List DiffLine)
    → ((l : DiffLine) → p l.type ≡ true → q l ≡ true)
    → filter q lines ≡ run_of p lines ++ filter q (after_run p lines)
filter-run_of p q [] f = refl
filter-run_of p q (l ∷ lines) f = elim (Bool-cases (p l.type)) [
  | inl e ↦ rw (e, f l e, filter-run_of p q lines f)
  | inr e ↦ rw e
]

filter-after_run :
    (p : DiffLineType → Bool) (q : DiffLine → Bool) (lines : List DiffLine)
    → ((l : DiffLine) → p l.type ≡ true → q l ≡ false)
    → filter q lines ≡ filter q (after_run p lines)
filter-after_run p q [] f = refl
filter-after_run p q (l ∷ lines) f = elim (Bool-cases (p l.type)) [
  | inl e ↦ rw (e, f l e, filter-after_run p q lines f)
  | inr e ↦ rw e
]

length-after_run :
    (p : DiffLineType → Bool) (lines : List DiffLine) → length (after_run p lines) ≤ length lines
length-after_run p [] = omega arith
length-after_run p (l ∷ lines) = ground (arith, length-after_run p lines)

remove-add : (t : DiffLineType) → is_remove t ≡ true → not (is_add t) ≡ true
remove-add context e = cc
remove-add add_line e = cc
remove-add remove_line e = refl

add-remove : (t : DiffLineType) → is_add t ≡ true → not (is_remove t) ≡ true
add-remove context e = cc
add-remove add_line e = refl
add-remove remove_line e = cc

remove-or-add :
    (t : DiffLineType)
    → is_context t ≡ false
    → (is_remove t ≡ true) ⊎ ((is_remove t ≡ false) × (is_add t ≡ true))
remove-or-add context e = cc
remove-or-add add_line e = inr (refl, refl)
remove-or-add remove_line e = inl refl

context-sides :
    (t : DiffLineType) → is_context t ≡ true → (is_add t ≡ false) × (is_remove t ≡ false)
context-sides context e = (refl, refl)
context-sides add_line e = cc
context-sides remove_line e = cc

abbrev HasSides : List DiffLine → List SplitRow → Type 0
HasSides lines rows = (lefts rows ≡ filter is_old lines) × (rights rows ≡ filter is_new lines)

-- What follows a run of removals and its additions.
abbrev later : List DiffLine → List DiffLine
later lines = after_run is_add (after_run is_remove lines)

abbrev paired : List DiffLine → List SplitRow
paired lines = pair_rows (run_of is_remove lines) (run_of is_add (after_run is_remove lines))

paired-HasSides :
    (lines : List DiffLine) (rows : List SplitRow)
    → HasSides (later lines) rows
    → HasSides lines (paired lines ++ rows)
paired-HasSides lines rows (l, r) =
    let removed = run_of is_remove lines in
    let more = after_run is_remove lines in
    let added = run_of is_add more in
    (
      rw (
        filter_map-append (λ r. r.left) (pair_rows removed added) rows,
        lefts-pair_rows removed added,
        l,
        filter-run_of is_remove is_old lines (λ l. remove-add l.type),
        filter-after_run is_add is_old more (λ l e. rw e),
      ),
      rw (
        filter_map-append (λ r. r.right) (pair_rows removed added) rows,
        rights-pair_rows removed added,
        r,
        filter-after_run is_remove is_new lines (λ l e. rw e),
        filter-run_of is_add is_new more (λ l. add-remove l.type),
      ),
    )

length-later :
    (line : DiffLine) (lines : List DiffLine)
    → is_context line.type ≡ false
    → length (later (line ∷ lines)) ≤ length lines
length-later line lines e = elim (remove-or-add line.type e) [
  | inl r ↦ rw r (
      le_trans (length-after_run is_add (after_run is_remove lines))
        (length-after_run is_remove lines))
  | inr (r, a) ↦ rw (r, a) (length-after_run is_add lines)
]

split_from-HasSides :
    (f : ℕ) (lines : List DiffLine) → length lines ≤ f → HasSides lines (split_from f lines)
unfolding split_from
split_from-HasSides zero [] h = (refl, refl)
split_from-HasSides zero (l ∷ lines) h = absurd (omega arith)
split_from-HasSides (suc f) [] h = (refl, refl)
split_from-HasSides (suc f) (l ∷ lines) h = elim (Bool-cases (is_context l.type)) [
  | inl e ↦
      let (a, r) = context-sides l.type e in
      let (l_eq, r_eq) = split_from-HasSides f lines (omega arith) in
      rw (e, l_eq, r_eq, a, r) (refl, refl)
  | inr e ↦ rw e (
      paired-HasSides (l ∷ lines) (split_from f (later (l ∷ lines)))
        (split_from-HasSides f (later (l ∷ lines)) (omega (arith, length-later l lines e))))
]

-- For every list of rows of a hunk, the left side of the split view shows the lines that are not
-- additions, and the right side those that are not removals, all of them, in their order, each once.
pub split_rows-sides :
    (lines : List DiffLine)
    → (lefts (split_rows lines) ≡ filter is_old lines)
      × (rights (split_rows lines) ≡ filter is_new lines)
unfolding split_rows
split_rows-sides lines = split_from-HasSides (length lines) lines (le_refl (length lines))
