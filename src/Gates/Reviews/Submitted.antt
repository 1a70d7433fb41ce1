-- ===== src/Gates/Reviews/Submitted.antt =====
-- review-summary.ts: submitted and stale reviews, by what their fields are.
use forge_hub.Base.{
  ===→eq, Bool, Bool-cases, Option, Text, [], and-true, ap, codes, false, inl, inr, is_empty,
  lower_unit, map, none, not, refl, some, sym, text-Eq, true, ℕ, ◌&&◌, ◌===◌, ◌↔◌, ◌∙◌, ◌∷◌, ◌≡◌,
  ◌≢◌,
}
use forge_hub.Gates.Reviews.{
  Review, is_submitted, review_key, is_review_stale, is_none, is_active, reviewer_of,
}

-- The review is one of the pull request that was submitted at a time.
abbrev pub IsSubmitted : Text → Review → ℕ → Type 0
IsSubmitted pull_request_id r t =
    (r.pull_request_id ≡ pull_request_id) × (r.state ≢ codes "PENDING") × (r.submitted_at ≡ some t)

-- The review was left against a recorded head that is not the current one.
abbrev pub IsStale : Option Text → Option Text → Type 0
IsStale review_sha head_sha =
    (s : Text) × (h : Text) × (review_sha ≡ some s)
    × (head_sha ≡ some h)
    × (s ≢ [])
    × (h ≢ [])
    × (s ≢ h)

differs_iff : (a b : Text) → (not (a === b) ≡ true) ↔ (a ≢ b)
differs_iff a b = elim (Bool-cases (a === b)) [
  | inl e ↦ rw e (λ h. absurd (cc), λ h. absurd (h (===→eq a b e)))
  | inr e ↦ rw e (λ _ h. false_true (sym e ∙ (text-Eq.beq_iff a b).1 h), λ _. refl)
]
  where
    false_true : false ≡ true → ⊥
    false_true e = cc

filled_iff : (a : Text) → (not (is_empty a) ≡ true) ↔ (a ≢ [])
filled_iff [] = (λ e. absurd (cc), λ h. absurd (h refl))
filled_iff (c ∷ a) = (λ _ e. cc, λ _. refl)

pub is_review_stale_iff :
    (review_sha head_sha : Option Text)
    → (is_review_stale review_sha head_sha ≡ true) ↔ IsStale review_sha head_sha
unfolding is_review_stale
is_review_stale_iff none h = (λ e. absurd (cc), λ (_, _, e, _, _, _, _). absurd (cc))
is_review_stale_iff (some s) none = (λ e. absurd (cc), λ (_, _, _, e, _, _, _). absurd (cc))
is_review_stale_iff (some s) (some h) = (to, back)
  where
    to : is_review_stale (some s) (some h) ≡ true → IsStale (some s) (some h)
    to e =
        let (filled, differ) = and-true (not (is_empty s) && not (is_empty h)) (not (s === h)) e in
        let (s_filled, h_filled) = and-true (not (is_empty s)) (not (is_empty h)) filled in
        (
          s,
          h,
          refl,
          refl,
          (filled_iff s).0 s_filled,
          (filled_iff h).0 h_filled,
          (differs_iff s h).0 differ,
        )

    some_inj : {a b c : Text} → some a ≡ some b → a ≡ c → b ≡ c
    some_inj e n = cc

    same : {a b c d : Text} → some a ≡ some c → some b ≡ some d → a ≡ b → c ≡ d
    same e f n = cc

    back : IsStale (some s) (some h) → is_review_stale (some s) (some h) ≡ true
    back (a, b, e, f, a_filled, b_filled, differ) = rw (
      (filled_iff s).1 (λ n. a_filled (some_inj e n)),
      (filled_iff h).1 (λ n. b_filled (some_inj f n)),
      (differs_iff s h).1 (λ n. differ (same e f n)),
    )

-- The row is a submitted review of the author.
abbrev pub is_of : Text → Text → Review → Bool
is_of pull_request_id author r = is_submitted pull_request_id r && r.author_id === author

pub is_of_iff :
    (pull_request_id author : Text) (r : Review)
    → (is_of pull_request_id author r ≡ true)
      ↔ (IsSubmitted pull_request_id r (review_key r) × (r.author_id ≡ author))
is_of_iff pull_request_id author r = (to, back)
  where
    dated : (o : Option ℕ) → not (is_none o) ≡ true → o ≡ some (elim o [ none ↦ 0 | some t ↦ t ])
    dated none e = absurd (cc)
    dated (some t) e = refl

    to :
        is_of pull_request_id author r ≡ true
        → IsSubmitted pull_request_id r (review_key r) × (r.author_id ≡ author)
    to e =
        let named = r.pull_request_id === pull_request_id in
        let not_pending = not (r.state === codes "PENDING") in
        let (sub, by) = and-true (is_submitted pull_request_id r) (r.author_id === author) e in
        let (open_row, date) = and-true (named && not_pending) (not (is_none r.submitted_at)) sub in
        let (pr, state) = and-true named not_pending open_row in
        (
          (
            ===→eq r.pull_request_id pull_request_id pr,
            (differs_iff r.state (codes "PENDING")).0 state,
            dated r.submitted_at date,
          ),
          ===→eq r.author_id author by,
        )

    back :
        IsSubmitted pull_request_id r (review_key r) × (r.author_id ≡ author)
        → is_of pull_request_id author r ≡ true
    back ((pr, state, date), by) = rw (
      (text-Eq.beq_iff r.pull_request_id pull_request_id).1 pr,
      (differs_iff r.state (codes "PENDING")).1 state,
      (text-Eq.beq_iff r.author_id author).1 by,
      date,
    )

pub review_key-date :
    (pull_request_id : Text) (x : Review) (u : ℕ)
    → IsSubmitted pull_request_id x u
    → review_key x ≡ u
review_key-date pull_request_id x u (pr, state, date) =
    ap (λ (o : Option ℕ). elim o [ none ↦ 0 | some t ↦ t ]) date

-- What is submitted passes the test.
pub submitted-is_of :
    (pull_request_id author : Text) (x : Review) (u : ℕ)
    → IsSubmitted pull_request_id x u
    → x.author_id ≡ author
    → is_of pull_request_id author x ≡ true
submitted-is_of pull_request_id author x u (pr, state, date) by =
    let key = review_key-date pull_request_id x u (pr, state, date) in
    let dated = date ∙ ap (λ t. some t) (sym key) in
    (is_of_iff pull_request_id author x).1 ((pr, state, dated), by)

pub contrary : {b : Bool} → b ≡ true → b ≡ false → ⊥
contrary e f = cc

-- A review that does not pass the test is no submitted review of the author.
pub not_of :
    (pull_request_id author : Text) (r x : Review) (u : ℕ)
    → is_of pull_request_id author r ≡ false
    → x ≡ r
    → IsSubmitted pull_request_id x u
    → x.author_id ≡ author
    → ⊥
not_of pull_request_id author r x u f e sub by =
    contrary (submitted-is_of pull_request_id author x u sub by)
      (ap (is_of pull_request_id author) e ∙ f)

-- A review fails the test of the gate exactly when it is stale if it gives the verdict.
pub inactive_iff :
    (verdict : Text) (head_sha : Option Text) (r : Review)
    → (is_active verdict (reviewer_of head_sha r) ≡ false)
      ↔ (map lower_unit r.state ≡ verdict → IsStale r.commit_sha head_sha)
unfolding reviewer_of
inactive_iff verdict head_sha r = (to, back)
  where
    asks : Bool
    asks = map lower_unit r.state === verdict

    stale : Bool
    stale = is_review_stale r.commit_sha head_sha

    both : asks && not stale ≡ false → asks ≡ true → stale ≡ true
    both e v = elim (Bool-cases stale) [
      | inl t ↦ t
      | inr f ↦ absurd (contrary refl (rw (v, f) at e))
    ]

    to :
        asks && not stale ≡ false → map lower_unit r.state ≡ verdict → IsStale r.commit_sha head_sha
    to e v =
        (is_review_stale_iff r.commit_sha head_sha).0
          (both e ((text-Eq.beq_iff (map lower_unit r.state) verdict).1 v))

    back :
        (map lower_unit r.state ≡ verdict → IsStale r.commit_sha head_sha)
        → asks && not stale ≡ false
    back h = elim (Bool-cases asks) [
      | inr f ↦ rw f refl
      | inl v ↦
          rw
            (
              v,
              (is_review_stale_iff r.commit_sha head_sha).1
                  (h (===→eq (map lower_unit r.state) verdict v)),
            )
            refl
    ]
