-- ===== src/Codeowners/Segments.antt =====
-- codeowners.ts: what a plain name owns.
use forge_hub.Base.{
  ==-self, ==_iff, Bool, Bool-cases, In, Lacks, List, Option, Text, [], all, any, ap, append-nil,
  append_assoc, ap₂, arith, ends_with, false, inl, inr, join_with, map, not, push_head, refl, some,
  split_on, split_on-append, split_on-ne-nil, split_on_of_Lacks, sym, true, ℕ, ◌++◌, ◌==◌, ◌||◌,
  ◌∙◌, ◌∷◌, ◌≡◌, ◌≢◌, ◌⊎◌,
}
use forge_hub.Regex.{Item, one, dirs, below, slash}
use forge_hub.Regex.Laws.{Matches}
use forge_hub.Codeowners.Patterns.{
  body, has_escape, compile_pattern, item_at, skip_at, compile_from,
}

-- A file or directory name without special characters.
abbrev pub is_name_unit : ℕ → Bool
is_name_unit c = not (c == slash || c == b'*' || c == b'?' || c == b'[')

abbrev pub IsName : Text → Type 0
IsName p = (p ≢ []) × (all is_name_unit p ≡ true)

abbrev pub literals : Text → List Item
literals s = map (λ c. one (λ d. d == c)) s

-- The parts of `is_name_unit`, for the tests of the compiler.
name_parts :
    (c : ℕ) (s : Text)
    → all is_name_unit (c ∷ s) ≡ true
    → ((c == slash) ≡ false)
      × ((c == b'*') ≡ false)
      × ((c == b'?') ≡ false)
      × ((c == b'[') ≡ false)
      × (all is_name_unit s ≡ true)
name_parts c s h = ground arith

body-name :
    (p : Text) (at_segment_start : Bool)
    → all is_name_unit p ≡ true
    → body 0 at_segment_start p ≡ some (literals p)
unfolding body item_at skip_at
body-name [] at_segment_start h = refl
body-name (c ∷ s) at_segment_start h =
    let (not_slash, not_star, not_query, not_bracket, hs) = name_parts c s h in
    rw (not_slash, not_star, not_query, not_bracket) (rw (body-name s false hs) refl)

has_escape-name : (p : Text) → all is_name_unit p ≡ true → has_escape false p ≡ false
unfolding has_escape
has_escape-name [] h = refl
has_escape-name (c ∷ s) h =
    let (_, _, _, not_bracket, hs) = name_parts c s h in rw not_bracket (has_escape-name s hs)

ends_with-name : (p : Text) → all is_name_unit p ≡ true → ends_with slash p ≡ false
ends_with-name [] h = refl
ends_with-name (c ∷ []) h = (name_parts c [] h).0
ends_with-name (c ∷ d ∷ s) h = ends_with-name (d ∷ s) (name_parts c (d ∷ s) h).4

any-slash_name : (p : Text) → all is_name_unit p ≡ true → any (λ c. c == slash) p ≡ false
any-slash_name [] h = refl
any-slash_name (c ∷ s) h =
    let (not_slash, _, _, _, hs) = name_parts c s h in rw not_slash (any-slash_name s hs)

-- A plain name compiles to itself, at any depth and with what is below it.
pub compile_pattern-name :
    (escaped : Text → Option (List Item)) (p : Text)
    → IsName p
    → compile_pattern escaped p ≡ some (dirs ∷ literals p ++ below ∷ [])
compile_pattern-name escaped [] (h, _) = absurd (h refl)
compile_pattern-name escaped (c ∷ s) (_, h) =
    unfold compile_pattern compile_from in
    rw
      (
        ends_with-name (c ∷ s) h,
        any-slash_name (c ∷ s) h,
        (name_parts c s h).0,
        has_escape-name (c ∷ s) h,
        body-name (c ∷ s) true h,
      )
      refl

pub Matches-literals :
    (p : Text) (is : List Item) (s : Text)
    → Matches (literals p ++ is) s
    → (v : Text) × (s ≡ p ++ v) × Matches is v
Matches-literals [] is s h = (s, refl, h)
Matches-literals (c ∷ p) is s (u, v, e, (d, eu, hd), k) =
    let (w, ew, m) = Matches-literals p is v k in
    (w, e ∙ ap₂ ◌++◌ (eu ∙ ap (λ x. x ∷ []) ((==_iff d c).0 hd)) ew, m)

pub literals-Matches :
    (p : Text) (is : List Item) (v : Text) → Matches is v → Matches (literals p ++ is) (p ++ v)
literals-Matches [] is v m = m
literals-Matches (c ∷ p) is v m =
    (c ∷ [], p ++ v, refl, (c, refl, ==-self c), literals-Matches p is v m)

-- Before a segment stands nothing or a text that ends in a slash; after it nothing or one that begins
-- with a slash.
abbrev pub IsBefore : Text → Type 0
IsBefore u = (u ≡ []) ⊎ ((v : Text) × (u ≡ v ++ slash ∷ []))

abbrev pub IsAfter : Text → Type 0
IsAfter w = (w ≡ []) ⊎ ((v : Text) × (w ≡ slash ∷ v))

abbrev pub HasSegment : Text → Text → Type 0
HasSegment p s = (u : Text) × (w : Text) × (s ≡ u ++ (p ++ w)) × IsBefore u × IsAfter w

IsBefore-more : (y u : Text) → IsBefore u → IsBefore (y ++ slash ∷ u)
IsBefore-more y u (inl e) = inr (y, rw e)
IsBefore-more y u (inr (v, e)) =
    inr (y ++ slash ∷ v, rw e (sym (append_assoc y (slash ∷ v) (slash ∷ []))))

pub segment_of_part : (p : Text) (xs : List Text) → In p xs → HasSegment p (join_with slash xs)
unfolding join_with
segment_of_part p [] h = absurd h
segment_of_part p (y ∷ []) (inl e) = ([], [], sym e ∙ sym (append-nil p), inl refl, inl refl)
segment_of_part p (y ∷ []) (inr h) = absurd h
segment_of_part p (y ∷ z ∷ zs) (inl e) =
    let rest = join_with slash (z ∷ zs) in
    ([], slash ∷ rest, ap (λ t. t ++ slash ∷ rest) (sym e), inl refl, inr (rest, refl))
segment_of_part p (y ∷ z ∷ zs) (inr h) =
    let (u, w, e, hu, hw) = segment_of_part p (z ∷ zs) h in
    (
      y ++ slash ∷ u,
      w,
      ap (λ t. y ++ slash ∷ t) e ∙ sym (append_assoc y (slash ∷ u) (p ++ w)),
      IsBefore-more y u hu,
      hw,
    )

pub Lacks-name : (p : Text) → all is_name_unit p ≡ true → Lacks slash p
Lacks-name [] h = tt
Lacks-name (c ∷ s) h = ((name_parts c s h).0, Lacks-name s (name_parts c s h).4)

-- The parts of a text with a slash are those of what stands before it and after it.
split_on-middle :
    (sep : ℕ) (s t : Text) → split_on sep (s ++ sep ∷ t) ≡ split_on sep s ++ split_on sep t
unfolding split_on
split_on-middle sep [] t = rw (==-self sep) refl
split_on-middle sep (c ∷ s) t = elim (Bool-cases (c == sep)) [
  | inl e ↦ rw (e, split_on-middle sep s t) refl
  | inr e ↦
      rw (e, split_on-middle sep s t)
        (push_head-append c (split_on sep s) (split_on sep t) (split_on-ne-nil sep s))
]
  where
    push_head-append :
        (c : ℕ) (ss ts : List Text) → (ss ≡ [] → ⊥) → push_head c (ss ++ ts) ≡ push_head c ss ++ ts
    push_head-append c [] ts h = absurd (h refl)
    push_head-append c (s ∷ ss) ts h = refl

In-append : {A : Type 0} (a : A) (xs ys : List A) → In a ys → In a (xs ++ ys)
In-append a [] ys h = h
In-append a (x ∷ xs) ys h = inr (In-append a xs ys h)

part_of_front : (p w : Text) → Lacks slash p → IsAfter w → In p (split_on slash (p ++ w))
part_of_front p w l (inl e) = rw (e, append-nil p, split_on_of_Lacks slash p l) (inl refl)
part_of_front p w l (inr (v, e)) = rw (e, split_on-append slash p v l) (inl refl)

pub part_of_segment : (p s : Text) → Lacks slash p → HasSegment p s → In p (split_on slash s)
part_of_segment p s l (u, w, e, inl eu, hw) = rw (e, eu) (part_of_front p w l hw)
part_of_segment p s l (u, w, e, inr (v, eu), hw) =
    rw (e, eu, append_assoc v (slash ∷ []) (p ++ w), split_on-middle slash v (p ++ w))
      (In-append p (split_on slash v) _ (part_of_front p w l hw))
