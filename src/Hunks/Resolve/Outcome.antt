-- ===== src/Hunks/Resolve/Outcome.antt =====
-- resolve-pull.ts: what a resolution of a text file gives, for all picks.
use forge_hub.Base.{
  All, Bool, Bool-cases, In, List, Option, Text, [], ap, arith, false, get_or, if◌then◌else◌,
  includes, includes_iff, inl, inr, insert, join_with, lookup, lookup-insert, none, or_else, refl,
  some, true, ℕ, ◌++◌, ◌===◌, ◌∙◌, ◌∷◌, ◌≡◌, text-Eq,
}
use forge_hub.Diff.{TextDiffLine, compare_plain_text_snapshots, diff_lines, split_lines}
use forge_hub.Hunks.{incoming, TextHunkSide, hunk_id}
use forge_hub.Hunks.Merging.{merged, side_of, materialize_plain_text_merge-merged}
use forge_hub.Hunks.Resolve.{
  HunkPick, Resolved, content, unknown_hunk, fault, hunk_ids, first_unknown, collect_sides,
  resolve_text, resolved_or,
}

-- The id is that of a pick whose hunk is not among those known, while the hunks of the picks before it
-- are.
abbrev pub IsFirstUnknown : List Text → List HunkPick → Text → Type 0
IsFirstUnknown known picks id =
    (before : List HunkPick) × (h : HunkPick) × (after : List HunkPick) × (picks
      ≡ before ++ h ∷ after)
    × All (λ k. In k.hunk_id known) before
    × (¬ In h.hunk_id known)
    × (h.hunk_id ≡ id)

-- The side that the last pick of a hunk takes.
unfoldable pub last_pick : Text → List HunkPick → Option TextHunkSide
last_pick id [] = none
last_pick id (h ∷ hs) = or_else (last_pick id hs) (if h.hunk_id === id then some h.side else none)

abbrev pub picked_side : List HunkPick → ℕ → TextHunkSide
picked_side picks k = get_or (last_pick (hunk_id k) picks) incoming

abbrev pub IsResolution : List TextDiffLine → List HunkPick → Resolved → Type 0
IsResolution rows picks (content s) =
    All (λ h. In h.hunk_id (hunk_ids rows)) picks
    × (s ≡ join_with 10 (merged (picked_side picks) false 0 rows))
IsResolution rows picks (unknown_hunk id) = IsFirstUnknown (hunk_ids rows) picks id
IsResolution rows picks fault = ⊥

abbrev IsChecked : List Text → List HunkPick → Option Text → Type 0
IsChecked known picks none = All (λ h. In h.hunk_id known) picks
IsChecked known picks (some id) = IsFirstUnknown known picks id

IsChecked-cons :
    (known : List Text) (h : HunkPick) (hs : List HunkPick) (o : Option Text)
    → In h.hunk_id known
    → IsChecked known hs o
    → IsChecked known (h ∷ hs) o
IsChecked-cons known h hs none i all_in = (i, all_in)
IsChecked-cons known h hs (some id) i (before, u, after, e, all_in, out, same) =
    (h ∷ before, u, after, ap (λ ks. h ∷ ks) e, (i, all_in), out, same)

first_unknown-IsChecked :
    (known : List Text) (picks : List HunkPick) → IsChecked known picks (first_unknown known picks)
unfolding first_unknown
first_unknown-IsChecked known [] = tt
first_unknown-IsChecked known (h ∷ hs) = elim (Bool-cases (includes known h.hunk_id)) [
  | inl t ↦ rw t (
      IsChecked-cons known h hs (first_unknown known hs) ((includes_iff known h.hunk_id).0 t)
        (first_unknown-IsChecked known hs))
  | inr f ↦ rw f ([], h, hs, refl, tt, λ i. clash ((includes_iff known h.hunk_id).1 i) f, refl)
]
  where
    clash : {b : Bool} → b ≡ true → b ≡ false → ⊥
    clash e f = cc

lookup-collect_sides :
    (k : Text) (hs : List HunkPick) (m : List (Text × TextHunkSide))
    → lookup k (collect_sides m hs) ≡ or_else (last_pick k hs) (lookup k m)
unfolding collect_sides last_pick
lookup-collect_sides k [] m = refl
lookup-collect_sides k (h ∷ hs) m = ground (
  arith,
  lookup-collect_sides k hs (insert h.hunk_id h.side m),
  lookup-insert h.hunk_id k h.side m,
)

side_of-collect_sides :
    (picks : List HunkPick) (k : ℕ)
    → side_of (collect_sides [] picks) incoming k ≡ picked_side picks k
unfolding lookup
side_of-collect_sides picks k =
    ap (λ o. get_or o incoming)
      (lookup-collect_sides (hunk_id k) picks [] ∙ or_else-none (last_pick (hunk_id k) picks))
  where
    or_else-none : (o : Option TextHunkSide) → or_else o none ≡ o
    or_else-none none = refl
    or_else-none (some s) = refl

resolved_or-IsResolution :
    (rows : List TextDiffLine) (picks : List HunkPick) (o : Option Text)
    → IsChecked (hunk_ids rows) picks o
    → IsResolution rows picks
        (resolved_or o (some (join_with 10 (merged (picked_side picks) false 0 rows))))
resolved_or-IsResolution rows picks none all_known = (all_known, refl)
resolved_or-IsResolution rows picks (some id) found = found

-- A resolution names the first picked hunk that the diff does not have, if there is one. Else it gives
-- the text whose every hunk is on the side of its last pick, or the incoming side if it has none, its
-- lines joined by newlines. It has no other result.
pub resolve_text-IsResolution :
    (base_id inc_id base_body inc_body : Text) (picks : List HunkPick)
    → IsResolution
        (diff_lines (split_lines base_body) (split_lines inc_body))
        picks
        (resolve_text base_id inc_id base_body inc_body picks)
unfolding resolve_text compare_plain_text_snapshots
resolve_text-IsResolution base_id inc_id base_body inc_body picks =
    let rows = diff_lines (split_lines base_body) (split_lines inc_body) in
    let sides : side_of (collect_sides [] picks) incoming ≡ picked_side picks =
      λ i k. side_of-collect_sides picks k i in
    rw (materialize_plain_text_merge-merged rows (collect_sides [] picks) incoming, sides)
      (resolved_or-IsResolution rows picks _ (first_unknown-IsChecked (hunk_ids rows) picks))
