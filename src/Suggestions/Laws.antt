-- ===== src/Suggestions/Laws.antt =====
-- suggestions.ts: a suggestion that is the line itself changes nothing.
use forge_hub.Base.{
  ==_iff, All, Bool-cases, Lacks, List, Text, [], ap, ap₂, arith, drop, drop_last, ends_with, false,
  get_elem?, if_false, inl, inr, join_with, join_with-split_on, length, ltb, push_head, refl, some,
  split_on, split_on-join_with, subst, suc, sym, take, true, zero, ℕ, ◌++◌, ◌+◌, ◌-◌, ◌<◌, ◌==◌,
  ◌||◌, ◌∙◌, ◌∷◌, ◌≡◌, ◌≢◌,
}
use forge_hub.Suggestions.{
  replaced, lines_of, splice, without_newline, apply_suggestion_to_content, restore,
}

split_on-Lacks : (s : Text) → All (Lacks 10) (split_on 10 s)
unfolding split_on
split_on-Lacks [] = (tt, tt)
split_on-Lacks (c ∷ s) = elim (Bool-cases (c == 10)) [
  | inl h ↦ rw h (tt, split_on-Lacks s)
  | inr h ↦ rw h (push_head-Lacks c h (split_on 10 s) (split_on-Lacks s))
]
  where
    push_head-Lacks :
        (c : ℕ)
        → (c == 10) ≡ false
        → (ss : List Text) → All (Lacks 10) ss
        → All (Lacks 10) (push_head c ss)
    push_head-Lacks c h [] a = ((h, tt), tt)
    push_head-Lacks c h (s ∷ ss) (l, ls) = ((h, l), ls)

lines_of-Lacks : (s : Text) → All (Lacks 10) (lines_of s)
unfolding lines_of
lines_of-Lacks [] = tt
lines_of-Lacks (c ∷ s) = split_on-Lacks (c ∷ s)

some-injective : {a b : Text} → some a ≡ some b → a ≡ b
some-injective e = cc

get_elem?-Lacks :
    (ls : List Text) (n : ℕ) (l : Text) → All (Lacks 10) ls → get_elem? ls n ≡ some l → Lacks 10 l
get_elem?-Lacks [] n l a h = absurd (cc)
get_elem?-Lacks (x ∷ ls) zero l (p, a) h = subst (Lacks 10) (some-injective h) p
get_elem?-Lacks (x ∷ ls) (suc n) l (p, a) h = get_elem?-Lacks ls n l a h

splice-same :
    (ls : List Text) (n : ℕ) (l : Text) → get_elem? ls n ≡ some l → splice n (l ∷ []) ls ≡ ls
splice-same [] n l h = absurd (cc)
splice-same (x ∷ ls) zero l h = ap (λ y. y ∷ ls) (some-injective (sym h))
splice-same (x ∷ ls) (suc n) l h =
    let next : suc n + 1 ≡ suc (n + 1) = omega arith in
    ap (λ k. (x ∷ take n ls) ++ l ∷ [] ++ drop k (x ∷ ls)) next
    ∙ ap (λ t. x ∷ t) (splice-same ls n l h)

ends_with-Lacks : (l : Text) → Lacks 10 l → ends_with 10 l ≡ false
ends_with-Lacks [] h = refl
ends_with-Lacks (c ∷ []) (h, _) = h
ends_with-Lacks (c ∷ d ∷ s) (h, hs) = ends_with-Lacks (d ∷ s) hs

drop_last-ends_with : (s : Text) → ends_with 10 s ≡ true → drop_last s ++ 10 ∷ [] ≡ s
drop_last-ends_with [] h = absurd (cc)
drop_last-ends_with (c ∷ []) h = ap (λ x. x ∷ []) (sym ((==_iff c 10).0 h))
drop_last-ends_with (c ∷ d ∷ s) h = ap (λ t. c ∷ t) (drop_last-ends_with (d ∷ s) h)

length-get_elem? : (ls : List Text) (n : ℕ) (l : Text) → get_elem? ls n ≡ some l → n < length ls
length-get_elem? [] n l h = absurd (cc)
length-get_elem? (x ∷ ls) zero l h = omega arith
length-get_elem? (x ∷ ls) (suc n) l h = omega (arith, length-get_elem? ls n l h)

lines_of-one_line : (l : Text) → l ≢ [] → Lacks 10 l → lines_of l ≡ l ∷ []
unfolding lines_of join_with
lines_of-one_line [] h k = absurd (h refl)
lines_of-one_line (c ∷ s) h k = split_on-join_with 10 (c ∷ s) [] (k, tt)

-- A line without newlines, taken as a suggestion, is one line.
lines_of-line : (l : Text) → l ≢ [] → Lacks 10 l → lines_of (without_newline l) ≡ l ∷ []
lines_of-line l h k = rw (ends_with-Lacks l k) (lines_of-one_line l h k)

join_with-lines_of : (s : Text) → join_with 10 (lines_of s) ≡ s
unfolding lines_of
join_with-lines_of [] = unfold join_with in refl
join_with-lines_of (c ∷ s) = join_with-split_on 10 (c ∷ s)

restore-body :
    (content : Text)
    → lines_of (without_newline content) ≢ []
    → restore (ends_with 10 content) (without_newline content) ≡ content
restore-body content h = elim (Bool-cases (ends_with 10 content)) [
  | inl e ↦ rw e (
      restored (drop_last content) (λ k. h (nil-lines content e k)) ∙ drop_last-ends_with content e)
  | inr e ↦ rw e (kept content)
]
  where
    restored : (s : Text) → s ≢ [] → restore true s ≡ s ++ 10 ∷ []
    restored [] h = absurd (h refl)
    restored (c ∷ s) h = refl

    kept : (s : Text) → restore false s ≡ s
    kept [] = refl
    kept (c ∷ s) = refl

    nil-lines :
        (content : Text)
        → ends_with 10 content ≡ true
        → drop_last content ≡ []
        → lines_of (without_newline content) ≡ []
    nil-lines content e k = unfold lines_of in rw (e, k)

-- A suggestion that is the text of the line itself, where that is not empty, leaves the file as it is,
-- with its final newline or without.
pub apply_suggestion_to_content-same :
    (content : Text) (n : ℕ) (l : Text)
    → get_elem? (lines_of (without_newline content)) n ≡ some l
    → l ≢ []
    → apply_suggestion_to_content content (n + 1) l ≡ replaced content
unfolding apply_suggestion_to_content
apply_suggestion_to_content-same content n l h k =
    let ls = lines_of (without_newline content) in
    let inside = length-get_elem? ls n l h in
    let in_range : (ltb (n + 1) 1 || ltb (length ls) (n + 1)) ≡ false = ground arith in
    let lacks = get_elem?-Lacks ls n l (lines_of-Lacks (without_newline content)) h in
    let index : n + 1 - 1 ≡ n = omega arith in
    if_false (ltb (n + 1) 1 || ltb (length ls) (n + 1)) _ _ in_range
    ∙ ap (λ t. replaced (restore (ends_with 10 content) (join_with 10 t)))
        (ap₂ (λ i r. splice i r ls) index (lines_of-line l k lacks) ∙ splice-same ls n l h)
    ∙ ap (λ t. replaced (restore (ends_with 10 content) t))
        (join_with-lines_of (without_newline content))
    ∙ ap replaced
        (restore-body content (λ e. absurd (none-at n l (subst (λ t. get_elem? t n ≡ some l) e h))))
  where
    none-at : (n : ℕ) (l : Text) → get_elem? [] n ≡ some l → ⊥
    none-at n l h = cc
