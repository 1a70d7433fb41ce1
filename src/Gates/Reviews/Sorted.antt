-- ===== src/Gates/Reviews/Sorted.antt =====
-- review-summary.ts: the last review of an author in the order of submission, found in one pass.
use forge_hub.Base.{
  All, All-below, Bool, Bool-cases, IsSortedBy, List, Option, Option-cases, Text, [], ap, arith,
  false, filter, if◌then◌else◌, inl, inr, insert_by, leb, leb-false→lt, leb→le, none, or_else, refl,
  some, sort_by, sort_by-IsSortedBy, subst, true, ℕ, ◌<◌, ◌===◌, ◌∙◌, ◌∷◌, ◌≡◌, ◌≤◌, text-Eq,
}
use forge_hub.Gates.Reviews.{Review, is_submitted, review_key, submitted_reviews, latest}
use forge_hub.Gates.Reviews.Submitted.{is_of}

abbrev pub later : Review → Option Review → Review
later r none = r
later r (some s) = if leb (review_key r) (review_key s) then s else r

-- The newest review of an author, the last one of several at one time.
unfoldable pub newest : Text → Text → List Review → Option Review
newest pull_request_id author [] = none
newest pull_request_id author (r ∷ rs) =
    let rest = newest pull_request_id author rs in
    if is_of pull_request_id author r then some (later r rest) else rest

pub some-path : (a b : Review) → some a ≡ some b → a ≡ b
some-path a b e = cc

pub not_found : (b : Review) → none ≡ some b → ⊥
not_found b e = cc

pub le→leb : (a b : ℕ) → a ≤ b → leb a b ≡ true
le→leb a b h = ground arith

pub lt→leb_false : (a b : ℕ) → a < b → leb b a ≡ false
lt→leb_false a b h = ground arith

latest-All :
    (author : Text) (P : Review → Type 0) (rs : List Review) (s : Review)
    → All P rs
    → latest author rs ≡ some s
    → P s
unfolding latest
latest-All author P [] s h e = absurd (cc)
latest-All author P (r ∷ rs) s (p, h) e = elim (Option-cases (latest author rs)) [
  | inr (z, q) ↦ subst P (some-path z s (rw q at e)) (latest-All author P rs z h q)
  | inl q ↦ elim (Bool-cases (r.author_id === author)) [
    | inl t ↦ subst P (some-path r s (rw (q, t) at e)) p
    | inr f ↦ absurd (not_found s (rw (q, f) at e))
  ]
]

-- The last review of an author, of a list that the review heads, and of one that another one heads
-- which is older than the review.
latest-first :
    (o : Option Review) (x : Review) (b : Bool)
    → ((s : Review) → o ≡ some s → review_key x ≤ review_key s)
    → or_else o (if b then some x else none) ≡ (if b then some (later x o) else o)
latest-first none x true h = refl
latest-first none x false h = refl
latest-first (some s) x true h = rw (le→leb (review_key x) (review_key s) (h s refl)) refl
latest-first (some s) x false h = refl

latest-second :
    (o : Option Review) (x y : Review) (b c : Bool)
    → review_key y < review_key x
    → or_else (if b then some (later x o) else o) (if c then some y else none) ≡ (
        let next = or_else o (if c then some y else none) in
        if b then some (later x next) else next)
latest-second none x y true true h = rw (lt→leb_false (review_key y) (review_key x) h) refl
latest-second none x y true false h = refl
latest-second none x y false c h = refl
latest-second (some s) x y true c h = refl
latest-second (some s) x y false c h = refl

latest-insert_by :
    (author : Text) (x : Review) (rs : List Review)
    → IsSortedBy review_key rs
    → latest author (insert_by review_key x rs)
      ≡ (if x.author_id === author then some (later x (latest author rs)) else latest author rs)
unfolding latest insert_by
latest-insert_by author x [] h = refl
latest-insert_by author x (y ∷ ys) (least, h) =
    elim (Bool-cases (leb (review_key x) (review_key y))) [
      | inl e ↦
          let le = leb→le (review_key x) (review_key y) e in
          rw e (
            latest-first (latest author (y ∷ ys)) x (x.author_id === author) (λ s found.
              latest-All author (λ z. review_key x ≤ review_key z) (y ∷ ys) s
                (le, All-below review_key (review_key x) (review_key y) ys le least) found))
      | inr e ↦
          rw (e, latest-insert_by author x ys h)
            (latest-second (latest author ys) x y (x.author_id === author) (y.author_id === author)
              (leb-false→lt (review_key x) (review_key y) e))
    ]

pub latest-sort_by :
    (pull_request_id author : Text) (rs : List Review)
    → latest author (submitted_reviews pull_request_id rs) ≡ newest pull_request_id author rs
unfolding submitted_reviews newest latest sort_by
latest-sort_by pull_request_id author [] = refl
latest-sort_by pull_request_id author (r ∷ rs) =
    elim (Bool-cases (is_submitted pull_request_id r)) [
      | inl e ↦ rw e (
          latest-insert_by author r (submitted_reviews pull_request_id rs)
            (sort_by-IsSortedBy review_key (filter (is_submitted pull_request_id) rs))
          ∙ ap (λ o. if r.author_id === author then some (later r o) else o)
              (latest-sort_by pull_request_id author rs))
      | inr e ↦ rw e (latest-sort_by pull_request_id author rs)
    ]
