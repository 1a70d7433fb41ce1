-- ===== src/Ci/Glob/Laws.antt =====
-- globMatch against the meaning of a pattern that its comment gives.
use forge_hub.Base.{
  ==-self, ==_iff, Bool-cases, List, Text, [], all, ap, if◌then◌else◌, inl, inr, push_head, refl,
  split_on, split_on-ne-nil, subst, sym, true, value, ℕ, ◌++◌, ◌==◌, ◌↔◌, ◌∙◌, ◌∷◌, ◌≡◌, ◌≢◌, ◌⊎◌,
}
use forge_hub.Regex.{Item, one, many}
use forge_hub.Regex.Laws.{Matches, matches_iff}
use forge_hub.Ci.Glob.{glob_match, star, join_segments, not_slash, literals}

-- A star stands for any text without a slash, and every other character for itself.
abbrev pub GlobMatches : Text → Text → Type 0
GlobMatches [] s = s ≡ []
GlobMatches (c ∷ p) s =
    ((c ≡ star)
      × (u : Text) × (v : Text) × (s ≡ u ++ v)
      × (all not_slash u ≡ true)
      × GlobMatches p v)
    ⊎ ((c ≢ star) × (v : Text) × (s ≡ c ∷ v) × GlobMatches p v)

-- The items of a pattern, read from its left.
items_of : Text → List Item
items_of [] = []
items_of (c ∷ p) = (if c == star then many not_slash else one (λ d. d == c)) ∷ items_of p

join_segments-push_head :
    (c : ℕ) (ss : List Text) → join_segments (push_head c ss) ≡ one (λ d. d == c) ∷ join_segments ss
unfolding join_segments literals
join_segments-push_head c [] = refl
join_segments-push_head c (s ∷ []) = refl
join_segments-push_head c (s ∷ t ∷ ss) = refl

join_segments-nil_cons :
    (ss : List Text) → ss ≢ [] → join_segments ([] ∷ ss) ≡ many not_slash ∷ join_segments ss
unfolding join_segments literals
join_segments-nil_cons [] h = absurd (h refl)
join_segments-nil_cons (s ∷ ss) h = refl

join_segments-split_on : (p : Text) → join_segments (split_on star p) ≡ items_of p
unfolding items_of split_on
join_segments-split_on [] = unfold join_segments literals in refl
join_segments-split_on (c ∷ p) = elim (Bool-cases (c == star)) [
  | inl h ↦ rw h (
      join_segments-nil_cons (split_on star p) (split_on-ne-nil star p)
      ∙ ap (λ r. many not_slash ∷ r) (join_segments-split_on p))
  | inr h ↦ rw h (
      join_segments-push_head c (split_on star p)
      ∙ ap (λ r. one (λ d. d == c) ∷ r) (join_segments-split_on p))
]

Matches→GlobMatches : (p s : Text) → Matches (items_of p) s → GlobMatches p s
unfolding items_of
Matches→GlobMatches [] s h = h
Matches→GlobMatches (c ∷ p) s h = elim (Bool-cases (c == star)) [
  | inl e ↦
      let (u, v, parts, l, k) = rw e at h in
      inl ((==_iff c star).0 e, u, v, parts, l, Matches→GlobMatches p v k)
  | inr e ↦
      let (u, v, parts, (d, eu, hd), k) = rw e at h in
      let same : u ++ v ≡ c ∷ v = ap (λ t. t ++ v) eu ∙ ap (λ x. x ∷ v) ((==_iff d c).0 hd) in
      inr (λ q. cc (e, (==_iff c star).1 q), v, parts ∙ same, Matches→GlobMatches p v k)
]

GlobMatches→Matches : (p s : Text) → GlobMatches p s → Matches (items_of p) s
unfolding items_of
GlobMatches→Matches [] s h = h
GlobMatches→Matches (c ∷ p) s (inl (e, u, v, parts, l, k)) =
    rw ((==_iff c star).1 e) (u, v, parts, l, GlobMatches→Matches p v k)
GlobMatches→Matches (c ∷ p) s (inr (n, v, parts, k)) = elim (Bool-cases (c == star)) [
  | inl e ↦ absurd (n ((==_iff c star).0 e))
  | inr e ↦ rw e (c ∷ [], v, parts, (c, refl, ==-self c), GlobMatches→Matches p v k)
]

-- A value matches a branch filter exactly when it divides as the pattern says: a star stands for any
-- text without a slash, also the empty one, and every other character for itself.
pub glob_match_iff :
    (pattern value : Text) → (glob_match pattern value ≡ true) ↔ GlobMatches pattern value
unfolding glob_match
glob_match_iff pattern value =
    let (to, back) = matches_iff (join_segments (split_on star pattern)) value in
    let same = join_segments-split_on pattern in
    (
      λ h. Matches→GlobMatches pattern value (subst (λ is. Matches is value) same (to h)),
      λ h. back (subst (λ is. Matches is value) (sym same) (GlobMatches→Matches pattern value h)),
    )
