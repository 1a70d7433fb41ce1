-- ===== src/Codeowners/Names.antt =====
-- codeowners.ts: the paths that a plain name owns.
use forge_hub.Base.{
  In, List, Option, Text, [], all, all-append, and-true, ap, append-nil, inl, inr,
  join_with-split_on, refl, some, split_on, subst, sym, true, ◌++◌, ◌↔◌, ◌∙◌, ◌∷◌, ◌≡◌,
}
use forge_hub.Regex.{Item, dirs, below, dot, slash, matches}
use forge_hub.Regex.Laws.{Matches, Lang, matches_iff}
use forge_hub.Codeowners.Segments.{
  literals, IsName, IsBefore, HasSegment, IsAfter, Matches-literals, literals-Matches,
  compile_pattern-name, part_of_segment, Lacks-name, segment_of_part,
}
use forge_hub.Codeowners.Patterns.{compile_pattern}

IsBefore-of_dirs : (u : Text) → Lang dirs u → IsBefore u
IsBefore-of_dirs u (inl e) = inl e
IsBefore-of_dirs u (inr (v, _, e)) = inr (v, e)

IsAfter-of_below : (w : Text) → Lang below w → IsAfter w
IsAfter-of_below w (inl e) = inl e
IsAfter-of_below w (inr (v, _, e)) = inr (v, e)

dots-append : (u v : Text) → all dot (u ++ v) ≡ true → (all dot u ≡ true) × (all dot v ≡ true)
dots-append u v h = and-true (all dot u) (all dot v) (sym (all-append dot u v) ∙ h)

Lang-of_IsBefore : (u : Text) → IsBefore u → all dot u ≡ true → Lang dirs u
Lang-of_IsBefore u (inl e) h = inl e
Lang-of_IsBefore u (inr (v, e)) h =
    inr (v, (dots-append v (slash ∷ []) (ap (all dot) (sym e) ∙ h)).0, e)

Lang-of_IsAfter : (w : Text) → IsAfter w → all dot w ≡ true → Lang below w
Lang-of_IsAfter w (inl e) h = inl e
Lang-of_IsAfter w (inr (v, e)) h = inr (v, ap (all dot) (sym e) ∙ h, e)

abbrev name_items : Text → List Item
name_items p = dirs ∷ literals p ++ below ∷ []

segment_of_match : (p path : Text) → Matches (name_items p) path → HasSegment p path
segment_of_match p path (u, v, e, l, k) =
    let (w, ew, (t, r, et, lt, er)) = Matches-literals p (below ∷ []) v k in
    let last : w ≡ t = et ∙ ap (λ x. t ++ x) er ∙ append-nil t in
    (
      u,
      w,
      e ∙ ap (λ x. u ++ x) ew,
      IsBefore-of_dirs u l,
      subst IsAfter (sym last) (IsAfter-of_below t lt),
    )

match_of_segment :
    (p path : Text) → all dot path ≡ true → HasSegment p path → Matches (name_items p) path
match_of_segment p path h (u, w, e, hu, hw) =
    let (dots_u, rest) = dots-append u (p ++ w) (ap (all dot) (sym e) ∙ h) in
    let (_, dots_w) = dots-append p w rest in
    (
      u,
      p ++ w,
      e,
      Lang-of_IsBefore u hu dots_u,
      literals-Matches p (below ∷ []) w
          (w, [], sym (append-nil w), Lang-of_IsAfter w hw dots_w, refl),
    )

-- A rule whose pattern is a plain name matches exactly the paths that have the name as a segment: the
-- file or directory of that name at any depth, and what lies below it. The path has no line break.
pub compile_pattern-segment :
    (escaped : Text → Option (List Item)) (name path : Text) (is : List Item)
    → IsName name
    → compile_pattern escaped name ≡ some is
    → all dot path ≡ true
    → (matches is path ≡ true) ↔ In name (split_on slash path)
compile_pattern-segment escaped name path is plain compiled dots =
    let same : name_items name ≡ is =
      some-injective (sym (compile_pattern-name escaped name plain) ∙ compiled) in
    let (to, back) = matches_iff (name_items name) path in
    (
      λ h.
          part_of_segment name path (Lacks-name name plain.1)
            (segment_of_match name path (to (subst (λ x. matches x path ≡ true) (sym same) h))),
      λ h.
          subst (λ x. matches x path ≡ true) same
            (back (
              match_of_segment name path dots (
                subst (HasSegment name) (join_with-split_on slash path)
                  (segment_of_part name (split_on slash path) h)))),
    )
  where
    some-injective : {a b : List Item} → some a ≡ some b → a ≡ b
    some-injective e = cc
