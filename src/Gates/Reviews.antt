-- ===== src/Gates/Reviews.antt =====
-- apps/api/src/review-summary.ts: the review status of a pull request. A date is its number of
-- milliseconds, which orders as the ISO text of it does.
pub mod Submitted
pub mod Sorted
pub mod Newest
use forge_hub.Base.{
  Bool, Distinct, Distinct-insert, List, Option, Text, [], any-lookup, any-map, arith, codes, count,
  count-reverse, count-sort_by, count-zero_iff, false, filter, if◌then◌else◌, insert, is_empty,
  length, lookup, lookup-insert, lower_unit, map, none, not, or_else, refl, reverse, some, sort_by,
  suc, sym, true, ℕ, ◌&&◌, ◌===◌, ◌↔◌, ◌∙◌, ◌∷◌, ◌≡◌, text-Eq,
}
use forge_hub.Base.{text-Eq}

-- A row of `pullRequestReview`, with the author's handle.
pub record Review : Type 0 where
  pub pull_request_id : Text
  pub author_id : Text
  pub author_handle : Text
  pub state : Text
  pub submitted_at : Option ℕ
  pub commit_sha : Option Text

-- A row of `pullRequestReviewComment`, with the state of its review.
pub record ReviewComment : Type 0 where
  pub pull_request_id : Text
  pub in_reply_to_id : Option Text
  pub resolved_at : Option ℕ
  pub review_state : Text

pub record ReviewerSummary : Type 0 where
  pub author : Text
  pub state : Text
  pub stale : Bool
  pub submitted_at : Option ℕ
  pub commit_sha : Option Text

pub record ReviewSummary : Type 0 where
  pub reviewers : List ReviewerSummary
  pub approvals : ℕ
  pub changes_requested : ℕ
  pub commented : ℕ
  pub stale_count : ℕ
  pub unresolved_threads : ℕ

-- The empty text is falsy.
unfoldable pub is_review_stale : Option Text → Option Text → Bool
is_review_stale none head_sha = false
is_review_stale (some review_sha) none = false
is_review_stale (some review_sha) (some head_sha) =
    not (is_empty review_sha) && not (is_empty head_sha) && not (review_sha === head_sha)

abbrev pub is_none {ℓ} : {A : Type ℓ} → Option A → Bool
is_none none = true
is_none (some a) = false

-- `where: { pullRequestId, state: { not: "PENDING" }, submittedAt: { not: null } }`
abbrev pub is_submitted : Text → Review → Bool
is_submitted pull_request_id r =
    r.pull_request_id === pull_request_id
    && not (r.state === codes "PENDING")
    && not (is_none r.submitted_at)

-- `orderBy: { submittedAt: "asc" }`; rows of one date are in the order of the table.
abbrev pub review_key : Review → ℕ
review_key r = elim r.submitted_at [ none ↦ 0 | some t ↦ t ]

unfoldable pub submitted_reviews : Text → List Review → List Review
unfolding sort_by
submitted_reviews pull_request_id reviews =
    sort_by review_key (filter (is_submitted pull_request_id) reviews)

-- The loop that sets each author's latest review.
unfoldable pub latest_by_author : List (Text × Review) → List Review → List (Text × Review)
unfolding insert
latest_by_author m [] = m
latest_by_author m (r ∷ rs) = latest_by_author (insert r.author_id r m) rs

unfoldable pub reviewer_of : Option Text → Review → ReviewerSummary
unfolding is_review_stale
reviewer_of head_sha r = record {
  author = r.author_handle;
  state = map lower_unit r.state;
  stale = is_review_stale r.commit_sha head_sha;
  submitted_at = r.submitted_at;
  commit_sha = r.commit_sha;
}

-- `a.submittedAt ?? ""`: no date comes first.
abbrev pub submitted_key : ReviewerSummary → ℕ
submitted_key r = elim r.submitted_at [ none ↦ 0 | some t ↦ suc t ]

abbrev has_verdict : Text → ReviewerSummary → Bool
has_verdict verdict r = r.state === verdict

-- `state === verdict && !stale`
abbrev pub is_active : Text → ReviewerSummary → Bool
is_active verdict r = has_verdict verdict r && not r.stale

-- Unresolved root comments of submitted reviews.
abbrev is_unresolved_root : Text → ReviewComment → Bool
is_unresolved_root pull_request_id c =
    c.pull_request_id === pull_request_id
    && is_none c.in_reply_to_id
    && is_none c.resolved_at
    && not (c.review_state === codes "PENDING")

unfoldable pub reviewers_of : Option Text → List (Text × Review) → List ReviewerSummary
unfolding sort_by
reviewers_of head_sha m =
    reverse (sort_by submitted_key (map (λ (p : Text × Review). reviewer_of head_sha p.1) m))

-- The tables are inputs.
unfoldable pub compute_review_summary :
    List Review → List ReviewComment → Text → Option Text → ReviewSummary
unfolding submitted_reviews latest_by_author reviewers_of
compute_review_summary reviews comments pull_request_id head_sha =
    let submitted = submitted_reviews pull_request_id reviews in
    let reviewers = reviewers_of head_sha (latest_by_author [] submitted) in
    record {
      reviewers = reviewers;
      approvals = length (filter (is_active (codes "approved")) reviewers);
      changes_requested = length (filter (is_active (codes "changes_requested")) reviewers);
      commented = length (filter (has_verdict (codes "commented")) reviewers);
      stale_count = length (filter (λ (r : ReviewerSummary). r.stale) reviewers);
      unresolved_threads = length (filter (is_unresolved_root pull_request_id) comments);
    }

unfoldable pub empty_review_summary : ReviewSummary
empty_review_summary = record {
  reviewers = [];
  approvals = 0;
  changes_requested = 0;
  commented = 0;
  stale_count = 0;
  unresolved_threads = 0;
}

-- The last of an author's reviews.
unfoldable pub latest : Text → List Review → Option Review
latest author [] = none
latest author (r ∷ rs) =
    or_else (latest author rs) (if r.author_id === author then some r else none)

lookup-latest_by_author :
    (author : Text) (m : List (Text × Review)) (rs : List Review)
    → lookup author (latest_by_author m rs) ≡ or_else (latest author rs) (lookup author m)
unfolding latest_by_author latest
lookup-latest_by_author author m [] = refl
lookup-latest_by_author author m (r ∷ rs) = ground (
  arith,
  lookup-latest_by_author author (insert r.author_id r m) rs,
  lookup-insert r.author_id author r m,
)

lookup-latest :
    (author : Text) (rs : List Review) → lookup author (latest_by_author [] rs) ≡ latest author rs
unfolding lookup
lookup-latest author rs = lookup-latest_by_author author [] rs ∙ or_else-none (latest author rs)
  where
    or_else-none : (o : Option Review) → or_else o none ≡ o
    or_else-none none = refl
    or_else-none (some r) = refl

Distinct-latest_by_author :
    (m : List (Text × Review)) (rs : List Review) → Distinct m → Distinct (latest_by_author m rs)
unfolding latest_by_author
Distinct-latest_by_author m [] d = d
Distinct-latest_by_author m (r ∷ rs) d =
    Distinct-latest_by_author (insert r.author_id r m) rs (Distinct-insert r.author_id r m d)

count-reviewers_of :
    (head_sha : Option Text) (p : ReviewerSummary → Bool) (m : List (Text × Review))
    → count p (reviewers_of head_sha m)
      ≡ count p (map (λ (kv : Text × Review). reviewer_of head_sha kv.1) m)
unfolding reviewers_of
count-reviewers_of head_sha p m =
    count-reverse p
      (sort_by submitted_key (map (λ (kv : Text × Review). reviewer_of head_sha kv.1) m))
    ∙ count-sort_by submitted_key p (map (λ (kv : Text × Review). reviewer_of head_sha kv.1) m)

-- No reviewer passes a test exactly when the latest review of every author fails it.
pub none_pass_iff :
    (head_sha : Option Text) (p : ReviewerSummary → Bool) (rs : List Review)
    → (count p (reviewers_of head_sha (latest_by_author [] rs)) ≡ 0) ↔ (
        (author : Text) (r : Review)
        → latest author rs ≡ some r
        → p (reviewer_of head_sha r) ≡ false)
none_pass_iff head_sha p rs =
    let m = latest_by_author [] rs in
    let f : Text × Review → ReviewerSummary = λ kv. reviewer_of head_sha kv.1 in
    let (zero_to, zero_of) = count-zero_iff p (map f m) in
    let (any_to, any_of) =
      any-lookup (λ r. p (reviewer_of head_sha r)) m (Distinct-latest_by_author [] rs tt) in
    let counts = count-reviewers_of head_sha p m in
    (
      λ none_pass author r found.
          any_to (sym (any-map p f m) ∙ zero_to (sym counts ∙ none_pass)) author r
            (lookup-latest author rs ∙ found),
      λ all_fail.
          counts
          ∙ zero_of (
              any-map p f m
              ∙ any_of
                  (λ author r found. all_fail author r (sym (lookup-latest author rs) ∙ found))),
    )
