-- ===== src/PullDiff/Gaps.antt =====
-- The lines that the gaps between hunks hide.
use forge_hub.Base.{
  Any, Any-append, Bool-cases, In, List, [], ap, arith, count, get_or, inl, inr, leb, leb-false→lt,
  leb→le, ltb, none, refl, some, subst, suc, zero, ℕ, ◌++◌, ◌+◌, ◌-◌, ◌<◌, ◌↔◌, ◌∙◌, ◌∷◌, ◌≡◌, ◌≤◌,
  ◌⊎◌,
}
use forge_hub.PullDiff.{
  DiffLine, Gap, new_numbers, old_numbers, min_of, max_of, gap_above, gaps_from, hunk_gaps,
  min_with, max_with,
}

-- Line n of the new file is in a gap; it is a line of a hunk.
abbrev pub IsHidden : ℕ → List Gap → Type 0
IsHidden n gaps = Any (λ g. (g.from ≤ n) × (n ≤ g.to)) gaps

abbrev pub IsShown : ℕ → List (List DiffLine) → Type 0
IsShown n hunks = Any (λ h. In n (new_numbers h)) hunks

-- s, s + 1, ..., k numbers.
abbrev pub count_up : ℕ → ℕ → List ℕ
count_up s zero = []
count_up s (suc k) = s ∷ count_up (s + 1) k

-- The hunks after line p of the new file: each has none of its lines, or consecutive ones after those
-- of the hunks before.
abbrev pub IsLaidOut : ℕ → List (List DiffLine) → Type 0
IsLaidOut p [] = Unit
IsLaidOut p (h ∷ hunks) =
    ((new_numbers h ≡ []) × IsLaidOut p hunks)
    ⊎ ((s : ℕ) × (k : ℕ) × (p < s) × (new_numbers h ≡ count_up s (suc k)) × IsLaidOut (s + k) hunks)

In-count_up : (n s k : ℕ) → In n (count_up s k) ↔ ((s ≤ n) × (n < s + k))
In-count_up n s zero = (λ h. absurd h, λ h. absurd (omega (arith, h.0, h.1)))
In-count_up n s (suc k) = grind (arith, In-count_up n (s + 1) k)

min_of-count_up : (s k : ℕ) → min_of (count_up s (suc k)) ≡ some s
unfolding min_of
min_of-count_up s zero = refl
min_of-count_up s (suc k) =
    ap (λ o. some (min_with s o)) (min_of-count_up (s + 1) k) ∙ ap some (omega arith)

none_of_nil : (min_of [] ≡ none) × (max_of [] ≡ none)
unfolding min_of max_of
none_of_nil = (refl, refl)

max_of-count_up : (s k : ℕ) → max_of (count_up s (suc k)) ≡ some (s + k)
unfolding max_of
max_of-count_up s zero = ap some (omega arith)
max_of-count_up s (suc k) =
    ap (λ o. some (max_with s o)) (max_of-count_up (s + 1) k) ∙ ap some (omega arith)

abbrev IsIn : ℕ → Gap → Type 0
IsIn n g = (g.from ≤ n) × (n ≤ g.to)

IsHidden-gap_above : (i p s o n : ℕ) → 0 < n → IsHidden n (gap_above i p s o) ↔ ((p < n) × (n < s))
IsHidden-gap_above i p s o n h = elim (Bool-cases (leb (p + 1) (s - 1))) [
  | inl e ↦ let le = leb→le (p + 1) (s - 1) e in rw e (λ x. ground arith, λ x. ground arith)
  | inr e ↦
      let lt = leb-false→lt (p + 1) (s - 1) e in rw e (λ x. absurd x, λ x. omega (arith, x.0, x.1))
]

IsShown-after :
    (p n : ℕ) (hunks : List (List DiffLine)) → IsLaidOut p hunks → IsShown n hunks → p < n
IsShown-after p n [] laid shown = absurd shown
IsShown-after p n (h ∷ hunks) (inl (e, laid)) (inl shown) = absurd (rw e at shown)
IsShown-after p n (h ∷ hunks) (inl (e, laid)) (inr shown) = IsShown-after p n hunks laid shown
IsShown-after p n (h ∷ hunks) (inr (s, k, lt, e, laid)) (inl shown) =
    let (from, _) = (In-count_up n s (suc k)).0 (rw e at shown) in omega arith
IsShown-after p n (h ∷ hunks) (inr (s, k, lt, e, laid)) (inr shown) =
    omega (arith, IsShown-after (s + k) n hunks laid shown)

-- The loop from a hunk on, after line p.
abbrev Skips : ℕ → ℕ → List (List DiffLine) → List Gap → Type 0
Skips p n hunks gaps = IsHidden n gaps ↔ ((p < n) × ¬ IsShown n hunks)

Skips-empty :
    (i p o n : ℕ) (h : List DiffLine) (hunks : List (List DiffLine)) (gaps : List Gap)
    → 0 < n
    → new_numbers h ≡ []
    → Skips p n hunks gaps
    → Skips p n (h ∷ hunks) (gap_above i p (p + 1) o ++ gaps)
Skips-empty i p o n h hunks gaps n_pos e rest = (to, back)
  where
    to : IsHidden n (gap_above i p (p + 1) o ++ gaps) → (p < n) × ¬ IsShown n (h ∷ hunks)
    to x = elim ((Any-append (IsIn n) (gap_above i p (p + 1) o) gaps).0 x) [
      | inl a ↦ let (l, u) = (IsHidden-gap_above i p (p + 1) o n n_pos).0 a in absurd (omega arith)
      | inr b ↦
          let (l, unseen) = rest.0 b in
          (l, λ y. elim y [ inl z ↦ absurd (rw e at z) | inr z ↦ unseen z ])
    ]

    back : (p < n) × ¬ IsShown n (h ∷ hunks) → IsHidden n (gap_above i p (p + 1) o ++ gaps)
    back (l, unseen) =
        (Any-append (IsIn n) (gap_above i p (p + 1) o) gaps).1
          (inr (rest.1 (l, λ z. unseen (inr z))))

Skips-consecutive :
    (i p s k o n : ℕ) (h : List DiffLine) (hunks : List (List DiffLine)) (gaps : List Gap)
    → 0 < n
    → p < s
    → new_numbers h ≡ count_up s (suc k)
    → IsLaidOut (s + k) hunks
    → Skips (s + k) n hunks gaps
    → Skips p n (h ∷ hunks) (gap_above i p s o ++ gaps)
Skips-consecutive i p s k o n h hunks gaps n_pos lt e laid rest = (to, back)
  where
    to : IsHidden n (gap_above i p s o ++ gaps) → (p < n) × ¬ IsShown n (h ∷ hunks)
    to x = elim ((Any-append (IsIn n) (gap_above i p s o) gaps).0 x) [
      | inl a ↦
          let (l, u) = (IsHidden-gap_above i p s o n n_pos).0 a in
          (
            l,
            λ y. elim y [
              | inl z ↦ let (v, _) = (In-count_up n s (suc k)).0 (rw e at z) in absurd (omega arith)
              | inr z ↦ absurd (omega (arith, IsShown-after (s + k) n hunks laid z))
            ],
          )
      | inr b ↦
          let (l, unseen) = rest.0 b in
          (
            omega arith,
            λ y. elim y [
              | inl z ↦ let (_, v) = (In-count_up n s (suc k)).0 (rw e at z) in absurd (omega arith)
              | inr z ↦ unseen z
            ],
          )
    ]

    back : (p < n) × ¬ IsShown n (h ∷ hunks) → IsHidden n (gap_above i p s o ++ gaps)
    back (l, unseen) =
        (Any-append (IsIn n) (gap_above i p s o) gaps).1 (elim (Bool-cases (leb s n)) [
          | inr u ↦ inl ((IsHidden-gap_above i p s o n n_pos).1 (l, leb-false→lt s n u))
          | inl u ↦ inr (rest.1 (beyond (leb→le s n u), λ z. unseen (inr z)))
        ])
      where
        beyond : s ≤ n → s + k < n
        beyond u = elim (Bool-cases (leb n (s + k))) [
          | inr v ↦ leb-false→lt n (s + k) v
          | inl v ↦
              let le = leb→le n (s + k) v in
              absurd (unseen (inl (rw e ((In-count_up n s (suc k)).1 (u, omega arith)))))
        ]

gaps_from-Skips :
    (i p o n count : ℕ) (hunks : List (List DiffLine))
    → 0 < n
    → n ≤ count
    → IsLaidOut p hunks
    → Skips p n hunks (gaps_from i p o hunks count)
unfolding gaps_from
gaps_from-Skips i p o n count [] n_pos le laid = elim (Bool-cases (ltb p count)) [
  | inl e ↦ rw e (λ x. ground arith, λ x. inl (omega (arith, x.0), le))
  | inr e ↦ rw e (λ x. absurd x, λ x. ground (arith, x.0))
]
gaps_from-Skips i p o n count (h ∷ hunks) n_pos le (inl (e, laid)) =
    let old_start = get_or (min_of (old_numbers h)) (o + 1) in
    let old_end = get_or (max_of (old_numbers h)) (old_start - 1) in
    let rest =
      subst (λ q. Skips p n hunks (gaps_from (i + 1) q old_end hunks count)) (omega arith)
        (gaps_from-Skips (i + 1) p old_end n count hunks n_pos le laid) in
    rw (ap min_of e ∙ none_of_nil.0, ap max_of e ∙ none_of_nil.1)
      (Skips-empty i p old_start n h hunks (gaps_from (i + 1) (p + 1 - 1) old_end hunks count) n_pos
        e rest)
gaps_from-Skips i p o n count (h ∷ hunks) n_pos le (inr (s, k, lt, e, laid)) =
    let old_start = get_or (min_of (old_numbers h)) (o + 1) in
    let old_end = get_or (max_of (old_numbers h)) (old_start - 1) in
    rw (ap min_of e ∙ min_of-count_up s k, ap max_of e ∙ max_of-count_up s k)
      (Skips-consecutive i p s k old_start n h hunks (gaps_from (i + 1) (s + k) old_end hunks count)
        n_pos lt e laid (gaps_from-Skips (i + 1) (s + k) old_end n count hunks n_pos le laid))

-- For hunks that are laid out from the start of the file, the lines of the new file that are in a gap
-- are exactly those that no hunk shows, up to the number of lines that is given.
pub hunk_gaps_iff :
    (hunks : List (List DiffLine)) (count n : ℕ)
    → IsLaidOut 0 hunks
    → 0 < n
    → n ≤ count
    → IsHidden n (hunk_gaps hunks count) ↔ ¬ IsShown n hunks
unfolding hunk_gaps
hunk_gaps_iff hunks count n laid n_pos le =
    let (to, back) = gaps_from-Skips 0 0 0 n count hunks n_pos le laid in
    (λ x. (to x).1, λ unseen. back (n_pos, unseen))
