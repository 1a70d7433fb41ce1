-- ===== src/Gates/Reviews/Newest.antt =====
-- review-summary.ts: which reviews the summary counts.
use forge_hub.Base.{
  Any-append, Bool-cases, In, List, Option, Option-cases, Text, [], ap, arith, codes, inl, inr, leb,
  leb-false→lt, leb→le, lower_unit, map, none, refl, some, subst, sym, true, ℕ, ◌++◌, ◌<◌, ◌↔◌, ◌∙◌,
  ◌∷◌, ◌≡◌, ◌≤◌, ◌⊎◌, text-Eq,
}
use forge_hub.Gates.Reviews.{
  Review, ReviewComment, submitted_reviews, latest, none_pass_iff, compute_review_summary,
  is_active, review_key,
}
use forge_hub.Gates.Reviews.Submitted.{
  IsSubmitted, is_of, review_key-date, IsStale, not_of, is_of_iff, submitted-is_of, inactive_iff,
}
use forge_hub.Gates.Reviews.Sorted.{
  newest, not_found, latest-sort_by, some-path, lt→leb_false, le→leb,
}

-- The submitted reviews of the author in the list, each with its time.
abbrev pub AllTimes : Text → Text → (ℕ → Type 0) → List Review → Type 0
AllTimes pull_request_id author P rs =
    (x : Review) (u : ℕ) → In x rs → IsSubmitted pull_request_id x u → x.author_id ≡ author → P u

-- The review is the newest of an author's: of the others, those before it in the table are no newer and
-- those after it are older.
abbrev pub IsNewestOf : Text → Text → List Review → Review → Type 0
IsNewestOf author pull_request_id rs r =
    (before : List Review) × (after : List Review) × (t : ℕ) × (rs ≡ before ++ r ∷ after)
    × IsSubmitted pull_request_id r t
    × AllTimes pull_request_id author (λ u. u ≤ t) before
    × AllTimes pull_request_id author (λ u. u < t) after

abbrev pub IsNewest : Text → List Review → Review → Type 0
IsNewest pull_request_id rs r = IsNewestOf r.author_id pull_request_id rs r

newest-none :
    (pull_request_id author : Text) (rs : List Review)
    → newest pull_request_id author rs ≡ none
    → AllTimes pull_request_id author (λ u. ⊥) rs
unfolding newest
newest-none pull_request_id author [] e x u i sub by = absurd i
newest-none pull_request_id author (r ∷ rs) e x u i sub by =
    elim (Bool-cases (is_of pull_request_id author r)) [
      | inl t ↦ absurd (not_found _ (sym (rw t at e)))
      | inr f ↦ elim i [
        | inl same ↦ not_of pull_request_id author r x u f same sub by
        | inr j ↦ newest-none pull_request_id author rs (rw f at e) x u j sub by
      ]
    ]

-- No submitted review of the author is newer.
IsNewestOf-bound :
    (pull_request_id author : Text) (rs : List Review) (z : Review)
    → IsNewestOf author pull_request_id rs z
    → AllTimes pull_request_id author (λ u. u ≤ review_key z) rs
IsNewestOf-bound pull_request_id author rs z (before, after, t, e, sub, low, high) x u i by_sub by =
    split ((Any-append (λ y. x ≡ y) before (z ∷ after)).0 (subst (In x) e i))
  where
    z_key : review_key z ≡ t
    z_key = review_key-date pull_request_id z t sub

    split : In x before ⊎ In x (z ∷ after) → u ≤ review_key z
    split (inl j) = omega (arith, low x u j by_sub by, z_key)
    split (inr (inl same)) =
        omega (arith, ap review_key same, review_key-date pull_request_id x u by_sub)
    split (inr (inr j)) = omega (arith, high x u j by_sub by, z_key)

newest-IsNewestOf :
    (pull_request_id author : Text) (rs : List Review) (s : Review)
    → newest pull_request_id author rs ≡ some s
    → (s.author_id ≡ author) × IsNewestOf author pull_request_id rs s
unfolding newest
newest-IsNewestOf pull_request_id author [] s e = absurd (not_found s e)
newest-IsNewestOf pull_request_id author (r ∷ rs) s e =
    elim (Bool-cases (is_of pull_request_id author r)) [
      | inr f ↦
          prepend s (λ x u same sub by. absurd (not_of pull_request_id author r x u f same sub by))
            (newest-IsNewestOf pull_request_id author rs s (rw f at e))
      | inl t ↦ elim (Option-cases (newest pull_request_id author rs)) [
        | inl q ↦ subst Newest (some-path r s (rw (t, q) at e)) (
            first t (λ x u i sub by. absurd (newest-none pull_request_id author rs q x u i sub by)))
        | inr (z, q) ↦
            let found = newest-IsNewestOf pull_request_id author rs z q in
            elim (Bool-cases (leb (review_key r) (review_key z))) [
              | inl le ↦
                  subst Newest (some-path z s (rw (t, q, le) at e))
                    (prepend z (λ x u same sub by. below z (leb→le _ _ le) x u same sub) found)
              | inr lt ↦ subst Newest (some-path r s (rw (t, q, lt) at e)) (
                  first t (λ x u i sub by.
                    let le = IsNewestOf-bound pull_request_id author rs z found.1 x u i sub by in
                    omega (arith, leb-false→lt (review_key r) (review_key z) lt)))
            ]
      ]
    ]
  where
    Newest : Review → Type 0
    Newest z = (z.author_id ≡ author) × IsNewestOf author pull_request_id (r ∷ rs) z

    first :
        is_of pull_request_id author r ≡ true
        → AllTimes pull_request_id author (λ u. u < review_key r) rs
        → Newest r
    first t older =
        let (sub, by) = (is_of_iff pull_request_id author r).0 t in
        (by, ([], rs, review_key r, refl, sub, λ x u i _ _. absurd i, older))

    prepend :
        (z : Review)
        → ((x : Review) (u : ℕ)
            → x ≡ r
            → IsSubmitted pull_request_id x u
            → x.author_id ≡ author
            → u ≤ review_key z)
        → (z.author_id ≡ author) × IsNewestOf author pull_request_id rs z
        → Newest z
    prepend z head (by, (before, after, t, e, sub, low, high)) = (
      by,
      (
        r ∷ before,
        after,
        t,
        ap (λ ys. r ∷ ys) e,
        sub,
        λ x u i sub_x by_x. elim i [
          | inl same ↦
              omega (arith, head x u same sub_x by_x, review_key-date pull_request_id z t sub)
          | inr j ↦ low x u j sub_x by_x
        ],
        high,
      ),
    )

    below :
        (z : Review)
        → review_key r ≤ review_key z
        → (x : Review) (u : ℕ) → x ≡ r
        → IsSubmitted pull_request_id x u
        → u ≤ review_key z
    below z le x u same sub =
        omega (arith, ap review_key same, review_key-date pull_request_id x u sub)

newest-split :
    (pull_request_id : Text) (before after : List Review) (r : Review) (t : ℕ)
    → IsSubmitted pull_request_id r t
    → AllTimes pull_request_id r.author_id (λ u. u ≤ t) before
    → AllTimes pull_request_id r.author_id (λ u. u < t) after
    → newest pull_request_id r.author_id (before ++ r ∷ after) ≡ some r
unfolding newest
newest-split pull_request_id [] after r t sub low high =
    rw (submitted-is_of pull_request_id r.author_id r t sub refl)
      (elim (Option-cases (newest pull_request_id r.author_id after)) [
        | inl q ↦ rw q refl
        | inr (z, q) ↦ rw (q, lt→leb_false (review_key z) (review_key r) (older z q)) refl
      ])
  where
    older :
        (z : Review)
        → newest pull_request_id r.author_id after ≡ some z
        → review_key z < review_key r
    older z q =
        let (by, (b, a, u, e, z_sub, _, _)) =
          newest-IsNewestOf pull_request_id r.author_id after z q in
        let i = (Any-append (λ y. z ≡ y) b (z ∷ a)).1 (inr (inl refl)) in
        omega (
          arith,
          high z u (subst (In z) (sym e) i) z_sub by,
          review_key-date pull_request_id z u z_sub,
          review_key-date pull_request_id r t sub,
        )
newest-split pull_request_id (x ∷ before) after r t sub low high =
    let rest = newest-split pull_request_id before after r t sub (λ y u i. low y u (inr i)) high in
    rw rest (elim (Bool-cases (is_of pull_request_id r.author_id x)) [
      | inr f ↦ rw f refl
      | inl e ↦
          let (x_sub, by) = (is_of_iff pull_request_id r.author_id x).0 e in
          let le = low x (review_key x) (inl refl) x_sub by in
          let key = review_key-date pull_request_id r t sub in
          rw (e, le→leb (review_key x) (review_key r) (omega arith)) refl
    ])

-- The review gate is open exactly when every review that asks for changes and is the newest of its
-- author is stale. Of a pull request's reviews only those count that are not pending and have a date;
-- of an author's reviews of one date the last in the table is the newest. Stale is a review of a
-- recorded head other than the current one, if that is known.
pub compute_review_summary-changes_requested :
    (reviews : List Review) (comments : List ReviewComment) (pull_request_id : Text)
    (head_sha : Option Text)
    → ((compute_review_summary reviews comments pull_request_id head_sha).changes_requested ≡ 0) ↔ (
        (r : Review)
        → IsNewest pull_request_id reviews r
        → map lower_unit r.state ≡ codes "changes_requested"
        → IsStale r.commit_sha head_sha)
unfolding compute_review_summary
compute_review_summary-changes_requested reviews comments pull_request_id head_sha =
    let (to, back) =
      none_pass_iff head_sha (is_active verdict) (submitted_reviews pull_request_id reviews) in
    (
      λ zero r is_newest asks.
          (inactive_iff verdict head_sha r).0 (to zero r.author_id r (found r is_newest)) asks,
      λ h. back (λ author r e.
          let (by, is_newest) =
            newest-IsNewestOf pull_request_id author reviews r
              (sym (latest-sort_by pull_request_id author reviews) ∙ e) in
          (inactive_iff verdict head_sha r).1
            (h r (subst (λ a. IsNewestOf a pull_request_id reviews r) (sym by) is_newest))),
    )
  where
    verdict : Text
    verdict = codes "changes_requested"

    found :
        (r : Review)
        → IsNewest pull_request_id reviews r
        → latest r.author_id (submitted_reviews pull_request_id reviews) ≡ some r
    found r (before, after, t, e, sub, low, high) =
        latest-sort_by pull_request_id r.author_id reviews
        ∙ ap (newest pull_request_id r.author_id) e
        ∙ newest-split pull_request_id before after r t sub low high
