-- ===== src/Diff/Subsequence.antt =====
-- compare.ts: the unchanged lines of a diff are a longest common subsequence of the two texts.
use forge_hub.Base.{
  Bool-cases, List, Text, [], arith, drop, false, inl, inr, leb, leb-false→lt, leb→le, length, max,
  refl, suc, text_eq_iff, ℕ, ◌+◌, ◌===◌, ◌∷◌, ◌≡◌, ◌≤◌, ◌⊎◌, text-Eq,
}
use forge_hub.Diff.{
  added, removed, unchanged, TextDiffLine, LineType, add_rest, remove_rest, walk, cell, diff_lines,
  fill_table,
}
use forge_hub.Diff.Table.{lcs, cell-fill_table}

-- The first list results from the second by leaving lines out.
abbrev pub IsSub : List Text → List Text → Type 0
IsSub [] ys = Unit
IsSub (x ∷ xs) [] = ⊥
IsSub (x ∷ xs) (y ∷ ys) = ((x ≡ y) × IsSub xs ys) ⊎ IsSub (x ∷ xs) ys

IsSub-skip : (xs : List Text) (y : Text) (ys : List Text) → IsSub xs ys → IsSub xs (y ∷ ys)
IsSub-skip [] y ys h = tt
IsSub-skip (x ∷ xs) y ys h = inr h

IsSub-tail : (x : Text) (xs ys : List Text) → IsSub (x ∷ xs) ys → IsSub xs ys
IsSub-tail x xs [] h = absurd h
IsSub-tail x xs (y ∷ ys) (inl h) = IsSub-skip xs y ys h.1
IsSub-tail x xs (y ∷ ys) (inr h) = IsSub-skip xs y ys (IsSub-tail x xs ys h)

-- Past the first line of the longer list.
IsSub-drop :
    (x : Text) (xs : List Text) (y : Text) (ys : List Text) → IsSub (x ∷ xs) (y ∷ ys) → IsSub xs ys
IsSub-drop x xs y ys (inl h) = h.1
IsSub-drop x xs y ys (inr h) = IsSub-tail x xs ys h

-- Where the first lines differ, one of them is not used.
first_differs :
    (x : Text) (xs : List Text) (a : Text) (old_lines : List Text) (b : Text)
    (new_lines : List Text) (p q : ℕ)
    → (a === b) ≡ false
    → IsSub (x ∷ xs) (a ∷ old_lines)
    → IsSub (x ∷ xs) (b ∷ new_lines)
    → (IsSub (x ∷ xs) old_lines → suc (length xs) ≤ p)
    → (IsSub (x ∷ xs) new_lines → suc (length xs) ≤ q)
    → suc (length xs) ≤ max p q
first_differs x xs a old_lines b new_lines p q e (inr h) k f g = omega (arith, f h)
first_differs x xs a old_lines b new_lines p q e (inl h) (inr k) f g = omega (arith, g k)
first_differs x xs a old_lines b new_lines p q e (inl h) (inl k) f g =
    ground (arith, text_eq_iff a b, h.0, k.0)

length-le-lcs :
    (xs old_lines new_lines : List Text)
    → IsSub xs old_lines
    → IsSub xs new_lines
    → length xs ≤ lcs old_lines new_lines
unfolding lcs
length-le-lcs [] old_lines new_lines h k = omega arith
length-le-lcs (x ∷ xs) [] new_lines h k = absurd h
length-le-lcs (x ∷ xs) (a ∷ old_lines) [] h k = absurd k
length-le-lcs (x ∷ xs) (a ∷ old_lines) (b ∷ new_lines) h k = elim (Bool-cases (a === b)) [
  | inl e ↦ rw e (
      omega (
        arith,
        length-le-lcs xs old_lines new_lines (IsSub-drop x xs a old_lines h)
            (IsSub-drop x xs b new_lines k),
      ))
  | inr e ↦ rw e (
      first_differs x xs a old_lines b new_lines _ _ e h k
        (λ h'. length-le-lcs (x ∷ xs) old_lines (b ∷ new_lines) h' k)
        (λ k'. length-le-lcs (x ∷ xs) (a ∷ old_lines) new_lines h k'))
]

abbrev keep_row : LineType → Text → List Text → List Text
keep_row unchanged s rest = s ∷ rest
keep_row added s rest = rest
keep_row removed s rest = rest

-- The contents of the unchanged rows.
unfoldable pub kept : List TextDiffLine → List Text
kept [] = []
kept (row ∷ rows) = keep_row row.type row.content (kept rows)

kept-add_rest : (n : ℕ) (new_lines : List Text) → kept (add_rest n new_lines) ≡ []
unfolding kept add_rest
kept-add_rest n [] = refl
kept-add_rest n (b ∷ new_lines) = kept-add_rest (n + 1) new_lines

kept-remove_rest : (n : ℕ) (old_lines : List Text) → kept (remove_rest n old_lines) ≡ []
unfolding kept remove_rest
kept-remove_rest n [] = refl
kept-remove_rest n (a ∷ old_lines) = kept-remove_rest (n + 1) old_lines

kept-walk-IsSub :
    (dp : List (List ℕ)) (i j n m : ℕ) (old_lines new_lines : List Text)
    → IsSub (kept (walk dp i j n m old_lines new_lines)) old_lines
      × IsSub (kept (walk dp i j n m old_lines new_lines)) new_lines
unfolding walk kept
kept-walk-IsSub dp i j n m [] new_lines = rw (kept-add_rest m new_lines) (tt, tt)
kept-walk-IsSub dp i j n m (a ∷ old_lines) [] = rw (kept-remove_rest n (a ∷ old_lines)) (tt, tt)
kept-walk-IsSub dp i j n m (a ∷ old_lines) (b ∷ new_lines) = elim (Bool-cases (a === b)) [
  | inl e ↦ rw e (
      (
        inl (refl, (kept-walk-IsSub dp (i + 1) (j + 1) (n + 1) (m + 1) old_lines new_lines).0),
        inl (
          (text_eq_iff a b).0 e,
          (kept-walk-IsSub dp (i + 1) (j + 1) (n + 1) (m + 1) old_lines new_lines).1,
        ),
      ))
  | inr e ↦ elim (Bool-cases (leb (cell dp i (j + 1)) (cell dp (i + 1) j))) [
    | inl l ↦
        rw (e, l)
          ((
            IsSub-skip _ a old_lines
                (kept-walk-IsSub dp (i + 1) j (n + 1) m old_lines (b ∷ new_lines)).0,
            (kept-walk-IsSub dp (i + 1) j (n + 1) m old_lines (b ∷ new_lines)).1,
          ))
    | inr l ↦
        rw (e, l)
          ((
            (kept-walk-IsSub dp i (j + 1) n (m + 1) (a ∷ old_lines) new_lines).0,
            IsSub-skip _ b new_lines
                (kept-walk-IsSub dp i (j + 1) n (m + 1) (a ∷ old_lines) new_lines).1,
          ))
  ]
]

-- `dp` is right about the suffixes that a walk at `i` and `j` has left.
abbrev Tabulates : List (List ℕ) → ℕ → ℕ → List Text → List Text → Type 0
Tabulates dp i j old_lines new_lines =
    (k l p q : ℕ)
    → p ≡ i + k
    → q ≡ j + l
    → k ≤ length old_lines
    → l ≤ length new_lines
    → cell dp p q ≡ lcs (drop k old_lines) (drop l new_lines)

length-kept-walk :
    (dp : List (List ℕ)) (i j n m : ℕ) (old_lines new_lines : List Text)
    → Tabulates dp i j old_lines new_lines
    → length (kept (walk dp i j n m old_lines new_lines)) ≡ lcs old_lines new_lines
unfolding walk lcs kept
length-kept-walk dp i j n m [] new_lines t = rw (kept-add_rest m new_lines)
length-kept-walk dp i j n m (a ∷ old_lines) [] t = rw (kept-remove_rest n (a ∷ old_lines))
length-kept-walk dp i j n m (a ∷ old_lines) (b ∷ new_lines) t = elim (Bool-cases (a === b)) [
  | inl e ↦ rw e (
      omega (
        arith,
        length-kept-walk dp (i + 1) (j + 1) (n + 1) (m + 1) old_lines new_lines
            (λ k l p q hp hq hk hl.
              t (suc k) (suc l) p q (omega arith) (omega arith) (omega arith) (omega arith)),
      ))
  | inr e ↦
      let right = t 0 1 i (j + 1) (omega arith) refl (omega arith) (omega arith) in
      let down = t 1 0 (i + 1) j refl (omega arith) (omega arith) (omega arith) in
      elim (Bool-cases (leb (cell dp i (j + 1)) (cell dp (i + 1) j))) [
        | inl g ↦
            rw (e, g)
              (omega (
                arith,
                right,
                down,
                leb→le _ _ g,
                length-kept-walk dp (i + 1) j (n + 1) m old_lines (b ∷ new_lines)
                    (λ k l p q hp hq hk hl. t (suc k) l p q (omega arith) hq (omega arith) hl),
              ))
        | inr g ↦
            rw (e, g)
              (omega (
                arith,
                right,
                down,
                leb-false→lt _ _ g,
                length-kept-walk dp i (j + 1) n (m + 1) (a ∷ old_lines) new_lines
                    (λ k l p q hp hq hk hl. t k (suc l) p q hp (omega arith) hk (omega arith)),
              ))
      ]
]

-- The unchanged lines of a diff appear in both texts in their order, and no list of lines that does
-- is longer.
pub kept-diff_lines-longest :
    (old_lines new_lines : List Text)
    → IsSub (kept (diff_lines old_lines new_lines)) old_lines
      × IsSub (kept (diff_lines old_lines new_lines)) new_lines
      × ((s : List Text)
          → IsSub s old_lines
          → IsSub s new_lines
          → length s ≤ length (kept (diff_lines old_lines new_lines)))
unfolding diff_lines
kept-diff_lines-longest old_lines new_lines =
    let dp = fill_table old_lines new_lines in
    let (in_old, in_new) = kept-walk-IsSub dp 0 0 1 1 old_lines new_lines in
    let longest = length-kept-walk dp 0 0 1 1 old_lines new_lines (λ k l p q hp hq hk hl.
      let p-eq : p ≡ k = omega arith in
      let q-eq : q ≡ l = omega arith in
      rw (p-eq, q-eq) (cell-fill_table old_lines new_lines k l hk hl)) in
    (in_old, in_new, λ s h k. omega (arith, longest, length-le-lcs s old_lines new_lines h k))
