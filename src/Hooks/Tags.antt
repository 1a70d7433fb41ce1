-- ===== src/Hooks/Tags.antt =====
-- git-hooks.ts and protected-tags.ts: the hook protects every tag that the API protects.
use forge_hub.Base.{
  All, Bool, Bool-cases, Lacks, List, Text, [], all, and-true, ap, arith, drop_space_end, false,
  filter, if_false, if◌then◌else◌, inl, inr, is_empty, is_space, map, not, or-true_right, refl,
  trim, trim_end, trim_start, true, ℕ, ◌&&◌, ◌++◌, ◌===◌, ◌==◌, ◌||◌, ◌↔◌, ◌∙◌, ◌∷◌, ◌≡◌, ◌≢◌, ◌⊎◌,
  text-Eq,
}
use forge_hub.Hooks.{
  RefUpdate, tag_deletion, tag_move, accepted, matches_line, check_tag, write_protected_tags_config,
  zero_sha, lines_file,
}
use forge_hub.Ci.Glob.{star, is_tag_protected, tag_matches_pattern, glob_match}
use forge_hub.Hooks.Shell.{read_one, trim_ifs_end, skip_ifs, drop_ifs_end, is_ifs}
use forge_hub.Ci.Glob.Laws.{GlobMatches, glob_match_iff}
use forge_hub.Hooks.Branches.{file_lines-lines_file}

-- `case "$s" in $pattern)` for a pattern of stars and literal characters: a star stands for any text.
abbrev pub ShMatches : Text → Text → Type 0
ShMatches [] s = s ≡ []
ShMatches (c ∷ p) s =
    ((c ≡ star) × (u : Text) × (v : Text) × (s ≡ u ++ v) × ShMatches p v)
    ⊎ ((c ≢ star) × (v : Text) × (s ≡ c ∷ v) × ShMatches p v)

-- No white space, and none of `?`, `[`, `]` and the backslash.
abbrev pub is_plain : ℕ → Bool
is_plain c = not (is_ifs c) && not (is_space c) && not (c == 63 || c == 91 || c == 93 || c == 92)

abbrev pub IsPlain : Text → Type 0
IsPlain p = (p ≢ []) × (all is_plain p ≡ true)

-- What the shell promises of such a pattern.
abbrev pub IsShellCase : (Text → Text → Bool) → Type 0
IsShellCase sh_case = (p s : Text) → all is_plain p ≡ true → (sh_case p s ≡ true) ↔ ShMatches p s

GlobMatches→ShMatches : (p s : Text) → GlobMatches p s → ShMatches p s
GlobMatches→ShMatches [] s h = h
GlobMatches→ShMatches (c ∷ p) s (inl (e, u, v, parts, _, k)) =
    inl (e, u, v, parts, GlobMatches→ShMatches p v k)
GlobMatches→ShMatches (c ∷ p) s (inr (n, v, parts, k)) =
    inr (n, v, parts, GlobMatches→ShMatches p v k)

not-false : (b : Bool) → not b ≡ true → b ≡ false
not-false true h = cc
not-false false h = refl

not_ifs_of_plain : (c : ℕ) → is_plain c ≡ true → is_ifs c ≡ false
not_ifs_of_plain c h = not-false (is_ifs c) (and-true (not (is_ifs c)) _ (and-true _ _ h).0).0

not_space_of_plain : (c : ℕ) → is_plain c ≡ true → is_space c ≡ false
not_space_of_plain c h =
    not-false (is_space c) (and-true (not (is_ifs c)) (not (is_space c)) (and-true _ _ h).0).1

-- The first character of a plain text, and the rest.
plain_parts :
    (c : ℕ) (s : Text)
    → all is_plain (c ∷ s) ≡ true
    → (is_ifs c ≡ false) × (is_space c ≡ false) × (all is_plain s ≡ true)
plain_parts c s h =
    let (hc, hs) = and-true (is_plain c) (all is_plain s) h in
    (not_ifs_of_plain c hc, not_space_of_plain c hc, hs)

trim_start_of_plain : (s : Text) → all is_plain s ≡ true → trim_start s ≡ s
unfolding trim_start
trim_start_of_plain [] h = refl
trim_start_of_plain (c ∷ s) h = if_false (is_space c) _ _ (plain_parts c s h).1

trim_end_of_plain : (s : Text) → all is_plain s ≡ true → trim_end s ≡ s
unfolding trim_end
trim_end_of_plain [] h = refl
trim_end_of_plain (c ∷ []) h = if_false (is_space c) _ _ (plain_parts c [] h).1
trim_end_of_plain (c ∷ d ∷ s) h =
    ap (drop_space_end c) (trim_end_of_plain (d ∷ s) (plain_parts c (d ∷ s) h).2)

trim_of_plain : (s : Text) → all is_plain s ≡ true → trim s ≡ s
unfolding trim
trim_of_plain s h = rw (trim_start_of_plain s h) (trim_end_of_plain s h)

skip_ifs_of_plain : (s : Text) → all is_plain s ≡ true → skip_ifs s ≡ s
unfolding skip_ifs
skip_ifs_of_plain [] h = refl
skip_ifs_of_plain (c ∷ s) h = if_false (is_ifs c) _ _ (plain_parts c s h).0

trim_ifs_end_of_plain : (s : Text) → all is_plain s ≡ true → trim_ifs_end s ≡ s
unfolding trim_ifs_end
trim_ifs_end_of_plain [] h = refl
trim_ifs_end_of_plain (c ∷ []) h = if_false (is_ifs c) _ _ (plain_parts c [] h).0
trim_ifs_end_of_plain (c ∷ d ∷ s) h =
    ap (drop_ifs_end c) (trim_ifs_end_of_plain (d ∷ s) (plain_parts c (d ∷ s) h).2)

read_one_of_plain : (s : Text) → all is_plain s ≡ true → read_one s ≡ s
unfolding read_one
read_one_of_plain s h = rw (skip_ifs_of_plain s h) (trim_ifs_end_of_plain s h)

not_newline : (c : ℕ) → is_ifs c ≡ false → (c == 10) ≡ false
not_newline c h = ground arith

Lacks-is_plain : (s : Text) → all is_plain s ≡ true → Lacks 10 s
Lacks-is_plain [] h = tt
Lacks-is_plain (c ∷ s) h =
    let (hc, _, hs) = plain_parts c s h in (not_newline c hc, Lacks-is_plain s hs)

is_empty_of_plain : (p : Text) → IsPlain p → not (is_empty p) ≡ true
is_empty_of_plain [] (h, _) = absurd (h refl)
is_empty_of_plain (c ∷ p) h = refl

-- Nothing of plain patterns is trimmed away or left out.
cleaned_of_plain :
    (ps : List Text) → All IsPlain ps → filter (λ p. not (is_empty p)) (map trim ps) ≡ ps
cleaned_of_plain [] h = refl
cleaned_of_plain (p ∷ ps) (h, hs) =
    rw (trim_of_plain p h.1, is_empty_of_plain p h, cleaned_of_plain ps hs)

All-Lacks-IsPlain : (ps : List Text) → All IsPlain ps → All (Lacks 10) ps
All-Lacks-IsPlain [] h = tt
All-Lacks-IsPlain (p ∷ ps) (h, hs) = (Lacks-is_plain p h.1, All-Lacks-IsPlain ps hs)

matches_line_of_protected :
    (sh_case : Text → Text → Bool) (ps : List Text) (tag : Text)
    → IsShellCase sh_case
    → All IsPlain ps
    → is_tag_protected ps tag ≡ true
    → matches_line sh_case tag ps ≡ true
unfolding matches_line is_tag_protected tag_matches_pattern
matches_line_of_protected sh_case [] tag law h e = e
matches_line_of_protected sh_case (p ∷ ps) tag law (h, hs) e =
    elim (Bool-cases (glob_match p tag)) [
      | inl m ↦
          let hit = (law p tag h.1).1 (GlobMatches→ShMatches p tag ((glob_match_iff p tag).0 m)) in
          rw (read_one_of_plain p h.1, is_empty_of_plain p h, hit)
      | inr n ↦ or-true_right _ _ (matches_line_of_protected sh_case ps tag law hs (rw n at e))
    ]

-- A tag that the API protects is protected in the hook, under patterns without white space and without
-- `?`, `[`, `]` and the backslash: the hook refuses to delete and to move it, and lets it be created.
pub check_tag_of_protected :
    (sh_case : Text → Text → Bool) (patterns : List Text) (tag : Text) (up : RefUpdate)
    → IsShellCase sh_case
    → All IsPlain patterns
    → is_tag_protected patterns tag ≡ true
    → check_tag sh_case (write_protected_tags_config patterns) tag up ≡ (
        if up.new_sha === zero_sha
        then tag_deletion
        else if up.old_sha === zero_sha
        then accepted
        else tag_move)
unfolding check_tag write_protected_tags_config
check_tag_of_protected sh_case [] tag up law h e = absurd (none_protected e)
  where
    none_protected : is_tag_protected [] tag ≡ true → ⊥
    none_protected e = let none : false ≡ true = unfold is_tag_protected in e in cc
check_tag_of_protected sh_case (p ∷ ps) tag up law h e =
    ap (λ ls. check_tag sh_case (lines_file ls) tag up) (cleaned_of_plain (p ∷ ps) h)
    ∙ ap
        (λ ls.
          if (up.new_sha === zero_sha || not (up.old_sha === zero_sha))
            && matches_line sh_case tag ls
          then (if up.new_sha === zero_sha then tag_deletion else tag_move)
          else accepted)
        (file_lines-lines_file p ps (All-Lacks-IsPlain (p ∷ ps) h))
    ∙ rw (matches_line_of_protected sh_case (p ∷ ps) tag law h e) (ground arith)
