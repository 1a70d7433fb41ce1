-- ===== src/Hunks/Resolve.antt =====
-- apps/api/src/merge/resolve-pull.ts: the text branch of `materializeResolvedFiles`, from the two
-- bodies of a file and the picks of the request to the merged text.
pub mod Outcome
use forge_hub.Base.{
  All, Bool, Lacks, List, Option, Text, [], ap, arith, codes, drop_last, ends_with-snoc, false,
  get_or, if◌then◌else◌, includes, insert, join_with, lines-snoc, lookup, lookup-insert, map, none,
  refl, some, split_crlf, true, ℕ, ◌++◌, ◌+◌, ◌∙◌, ◌∷◌, ◌≡◌, text-Eq,
}
use forge_hub.Diff.{compare_plain_text_snapshots, TextDiffLine, diff_lines, split_lines}
use forge_hub.Diff.Rebuild.{sides, numbered, sides-diff_lines}
use forge_hub.Hunks.{
  group_plain_text_hunks, materialize_plain_text_merge, base, incoming, TextHunkSide, TextMergeHunk,
  hunk_id,
}
use forge_hub.Hunks.Merging.{merged, materialize_plain_text_merge-merged}

pub record HunkPick : Type 0 where
  pub hunk_id : Text
  pub side : TextHunkSide

-- `unknown_hunk` is the error that the loop throws; `fault` would be an exception of the merge.
pub data Resolved : Type 0 where
  content : Text → Resolved
  unknown_hunk : Text → Resolved
  fault : Resolved

unfoldable pub collect_sides :
    List (Text × TextHunkSide) → List HunkPick → List (Text × TextHunkSide)
collect_sides hunk_sides [] = hunk_sides
collect_sides hunk_sides (h ∷ hs) = collect_sides (insert h.hunk_id h.side hunk_sides) hs

-- The first pick whose hunk the diff does not have.
unfoldable pub first_unknown : List Text → List HunkPick → Option Text
first_unknown known [] = none
first_unknown known (h ∷ hs) =
    let rest = first_unknown known hs in if includes known h.hunk_id then rest else some h.hunk_id

-- `groupPlainTextHunks(diff.lines).map((h) => h.id)`
abbrev pub hunk_ids : List TextDiffLine → List Text
hunk_ids rows = map (λ h. h.id) (group_plain_text_hunks rows)

abbrev pub resolved_or : Option Text → Option Text → Resolved
resolved_or (some id) merge = unknown_hunk id
resolved_or none none = fault
resolved_or none (some s) = content s

unfoldable pub resolve_text : Text → Text → Text → Text → List HunkPick → Resolved
unfolding collect_sides first_unknown compare_plain_text_snapshots materialize_plain_text_merge
resolve_text base_id inc_id base_body inc_body picks =
    let diff = compare_plain_text_snapshots base_id inc_id base_body inc_body in
    let hunk_sides = collect_sides [] picks in
    resolved_or (first_unknown (hunk_ids diff.lines) picks)
      (materialize_plain_text_merge diff.lines hunk_sides incoming)

-- A merge that takes one side everywhere writes the lines of that side.
merged-incoming :
    (side : ℕ → TextHunkSide) (b : Bool) (k : ℕ) (rows : List TextDiffLine)
    → ((n : ℕ) → side n ≡ incoming)
    → merged side b k rows ≡ map (λ p. p.1) (sides rows).1
unfolding merged sides
merged-incoming side b k [] all_incoming = refl
merged-incoming side b k (row ∷ rows) all_incoming = ground (
  arith,
  all_incoming k,
  merged-incoming side true k rows all_incoming,
  merged-incoming side false (if b then k + 1 else k) rows all_incoming,
)

merged-base :
    (side : ℕ → TextHunkSide) (b : Bool) (k : ℕ) (rows : List TextDiffLine)
    → ((n : ℕ) → side n ≡ base)
    → merged side b k rows ≡ map (λ p. p.1) (sides rows).0
unfolding merged sides
merged-base side b k [] all_base = refl
merged-base side b k (row ∷ rows) all_base = ground (
  arith,
  all_base k,
  merged-base side true k rows all_base,
  merged-base side false (if b then k + 1 else k) rows all_base,
)

map-numbered : (n : ℕ) (ss : List Text) → map (λ (p : Option ℕ × Text). p.1) (numbered n ss) ≡ ss
unfolding numbered
map-numbered n [] = refl
map-numbered n (s ∷ ss) = ap (λ t. s ∷ t) (map-numbered (n + 1) ss)

-- Merging a line diff with one side picked everywhere gives that side's text back, line by line.
pub materialize_plain_text_merge-diff_lines :
    (old_lines new_lines : List Text)
    → (materialize_plain_text_merge (diff_lines old_lines new_lines) [] base
        ≡ some (join_with 10 old_lines))
      × (materialize_plain_text_merge (diff_lines old_lines new_lines) [] incoming
          ≡ some (join_with 10 new_lines))
unfolding lookup
materialize_plain_text_merge-diff_lines old_lines new_lines =
    let rows = diff_lines old_lines new_lines in
    let shown = sides-diff_lines old_lines new_lines in
    let contents = λ (ps : List (Option ℕ × Text)). map (λ (p : Option ℕ × Text). p.1) ps in
    let old_side = ap (λ p. contents p.0) shown ∙ map-numbered 1 old_lines in
    let new_side = ap (λ p. contents p.1) shown ∙ map-numbered 1 new_lines in
    let text = λ (ss : List Text). some (join_with 10 ss) in
    (
      materialize_plain_text_merge-merged rows [] base
          ∙ ap text (merged-base _ false 0 rows (λ n. refl) ∙ old_side),
      materialize_plain_text_merge-merged rows [] incoming
          ∙ ap text (merged-incoming _ false 0 rows (λ n. refl) ∙ new_side),
    )

abbrev pub AllIncoming : List HunkPick → Type 0
AllIncoming = All (λ h. h.side ≡ incoming)

lookup-collect_sides :
    (k : Text) (hs : List HunkPick) (hunk_sides : List (Text × TextHunkSide))
    → get_or (lookup k hunk_sides) incoming ≡ incoming
    → AllIncoming hs
    → get_or (lookup k (collect_sides hunk_sides hs)) incoming ≡ incoming
unfolding collect_sides
lookup-collect_sides k [] hunk_sides h all_incoming = h
lookup-collect_sides k (p ∷ ps) hunk_sides h (this, rest) =
    lookup-collect_sides k ps (insert p.hunk_id p.side hunk_sides)
      (rw (lookup-insert p.hunk_id k p.side hunk_sides) (ground arith)) rest

-- Where every pick is the incoming side of a hunk of the diff, the text is the incoming lines joined by
-- newlines.
pub resolve_text-incoming :
    (base_id inc_id base_body inc_body : Text) (picks : List HunkPick)
    → AllIncoming picks
    → first_unknown (hunk_ids (diff_lines (split_lines base_body) (split_lines inc_body))) picks
      ≡ none
    → resolve_text base_id inc_id base_body inc_body picks
      ≡ content (join_with 10 (split_lines inc_body))
unfolding resolve_text compare_plain_text_snapshots
resolve_text-incoming base_id inc_id base_body inc_body picks all_incoming all_known =
    let rows = diff_lines (split_lines base_body) (split_lines inc_body) in
    let contents = λ (ps : List (Option ℕ × Text)). map (λ (p : Option ℕ × Text). p.1) ps in
    rw (
      all_known,
      materialize_plain_text_merge-merged rows (collect_sides [] picks) incoming,
      merged-incoming _ false 0 rows
          (λ n. lookup-collect_sides (hunk_id n) picks [] (unfold lookup in refl) all_incoming),
      ap (λ p. contents p.1) (sides-diff_lines (split_lines base_body) (split_lines inc_body)),
      map-numbered 1 (split_lines inc_body),
    )

split_lines-snoc : (s : Text) → split_lines (s ++ 10 ∷ []) ≡ drop_last (split_crlf (s ++ 10 ∷ []))
unfolding split_lines
split_lines-snoc [] = refl
split_lines-snoc (c ∷ s) = rw (ends_with-snoc 10 (c ∷ s))

-- Taking the incoming side of every hunk of a file whose incoming text ends in a newline (and has no
-- carriage return) gives that text without its last newline.
pub resolve_text-loses_newline :
    (base_id inc_id base_body s : Text)
    → Lacks 13 s
    → resolve_text base_id inc_id base_body (s ++ codes "\n") [] ≡ content s
resolve_text-loses_newline base_id inc_id base_body s h =
    resolve_text-incoming base_id inc_id base_body (s ++ codes "\n") [] tt
      (unfold first_unknown in refl)
    ∙ ap content (ap (join_with 10) (split_lines-snoc s) ∙ lines-snoc s h)
