-- ===== src/Numbering/Invariant.antt =====
-- What every step of the creations keeps, above the numbers that the repository began with.
use forge_hub.Base.{
  Option, ap, arith, le_refl, max, none, refl, some, subst, sym, ℕ, ◌<◌, ◌∙◌, ◌≡◌, ◌≢◌, ◌≤◌,
}
use native.Mathlib.Decide.{ℕ_discrete}
use forge_hub.Numbering.{
  read_issues, read_pulls, raise, increment, store_issue, store_pull, Reach, here, next, Phase,
  RepoNumbers, asking, raised, numbered, stored, highest, enter, number_of, ite, raise_to, Step,
  Reach,
}

abbrev AtLeast : ℕ → Option ℕ → Type 0
AtLeast low none = Unit
AtLeast low (some a) = low ≤ a

-- A creation that has got past a call knows what the call establishes.
abbrev pub IsInPhase : ℕ → ℕ → ℕ → Phase → Type 0
IsInPhase issues pulls last (asking a b) = AtLeast issues a × AtLeast pulls b
IsInPhase issues pulls last raised = max issues pulls ≤ last
IsInPhase issues pulls last (numbered n) = (max issues pulls < n) × (n ≤ last)
IsInPhase issues pulls last (stored n) = (max issues pulls < n) × (n ≤ last)

-- `issues` and `pulls` are the highest numbers at the start.
pub record IsSound (issues pulls : ℕ) (r : RepoNumbers) : Type 0 where
  pub issues_kept : issues ≤ highest r.issues
  pub pulls_kept : pulls ≤ highest r.pulls
  pub phases : (j : ℕ) → IsInPhase issues pulls r.last_number (r.phase j)
  pub distinct :
      (j k m n : ℕ)
      → j ≢ k
      → number_of (r.phase j) ≡ some m
      → number_of (r.phase k) ≡ some n
      → m ≢ n

IsInPhase-mono :
    (issues pulls last later : ℕ) (p : Phase)
    → last ≤ later
    → IsInPhase issues pulls last p
    → IsInPhase issues pulls later p
IsInPhase-mono issues pulls last later (asking a b) le h = h
IsInPhase-mono issues pulls last later raised le h = omega arith
IsInPhase-mono issues pulls last later (numbered n) le h = omega arith
IsInPhase-mono issues pulls last later (stored n) le h = omega arith

All-enter :
    (P : Phase → Type 0) (phase : ℕ → Phase) (i : ℕ) (p : Phase)
    → ((j : ℕ) → P (phase j))
    → P p
    → (j : ℕ) → P (enter phase i p j)
All-enter P phase i p h hp j = elim (ℕ_discrete i j) as (λ d. P (ite d p (phase j))) [
  | yes e ↦ hp
  | no n ↦ h j
]

-- The phases afterwards, where the counter has not gone down.
phases-enter :
    (issues pulls last later : ℕ) (phase : ℕ → Phase) (i : ℕ) (p : Phase)
    → last ≤ later
    → ((j : ℕ) → IsInPhase issues pulls last (phase j))
    → IsInPhase issues pulls later p
    → (j : ℕ) → IsInPhase issues pulls later (enter phase i p j)
phases-enter issues pulls last later phase i p le h hp =
    All-enter (IsInPhase issues pulls later) phase i p
      (λ j. IsInPhase-mono issues pulls last later (phase j) le (h j)) hp

number_of-enter :
    (phase : ℕ → Phase) (i : ℕ) (p : Phase)
    → number_of p ≡ number_of (phase i)
    → (j : ℕ) → number_of (enter phase i p j) ≡ number_of (phase j)
number_of-enter phase i p e j =
    elim (ℕ_discrete i j) as (λ d. number_of (ite d p (phase j)) ≡ number_of (phase j)) [
      | yes same ↦ e ∙ ap (λ k. number_of (phase k)) same
      | no n ↦ refl
    ]

abbrev AreDistinct : (ℕ → Phase) → Type 0
AreDistinct phase =
    (j k m n : ℕ) → j ≢ k → number_of (phase j) ≡ some m → number_of (phase k) ≡ some n → m ≢ n

distinct-enter :
    (phase : ℕ → Phase) (i : ℕ) (p : Phase)
    → number_of p ≡ number_of (phase i)
    → AreDistinct phase
    → AreDistinct (enter phase i p)
distinct-enter phase i p e d j k m n ne hj hk =
    d j k m n ne (sym (number_of-enter phase i p e j) ∙ hj)
      (sym (number_of-enter phase i p e k) ∙ hk)

pub number-le :
    (issues pulls last : ℕ) (p : Phase) (n : ℕ)
    → IsInPhase issues pulls last p
    → number_of p ≡ some n
    → (max issues pulls < n) × (n ≤ last)
number-le issues pulls last (asking a b) n h e = absurd (cc)
number-le issues pulls last raised n h e = absurd (cc)
number-le issues pulls last (numbered m) n h e = ground arith
number-le issues pulls last (stored m) n h e = ground arith

-- A number above all that are given out is given out.
distinct-new :
    (issues pulls last : ℕ) (phase : ℕ → Phase) (i new : ℕ)
    → last < new
    → ((j : ℕ) → IsInPhase issues pulls last (phase j))
    → AreDistinct phase
    → AreDistinct (enter phase i (numbered new))
distinct-new issues pulls last phase i new above h d j k m n ne =
    elim (ℕ_discrete i j)
      as (λ x.
        number_of (ite x (numbered new) (phase j)) ≡ some m
        → number_of (enter phase i (numbered new) k) ≡ some n
        → m ≢ n) [
          | yes same ↦ λ hj.
              elim (ℕ_discrete i k)
                as (λ x. number_of (ite x (numbered new) (phase k)) ≡ some n → m ≢ n) [
                  | yes also ↦ λ hk. absurd (ne (sym same ∙ also))
                  | no other ↦ λ hk.
                      let (_, le) = number-le issues pulls last (phase k) n (h k) hk in
                      let is_new : new ≡ m = some-injective hj in λ q. absurd (omega arith)
                ]
          | no other ↦ λ hj.
              elim (ℕ_discrete i k)
                as (λ x. number_of (ite x (numbered new) (phase k)) ≡ some n → m ≢ n) [
                  | yes also ↦ λ hk.
                      let (_, le) = number-le issues pulls last (phase j) m (h j) hj in
                      let is_new : new ≡ n = some-injective hk in λ q. absurd (omega arith)
                  | no another ↦ λ hk. d j k m n ne hj hk
                ]
        ]
  where
    some-injective : {a b : ℕ} → some a ≡ some b → a ≡ b
    some-injective e = cc

le-raise_to : (floor last : ℕ) → (last ≤ raise_to floor last) × (floor ≤ raise_to floor last)
le-raise_to floor last = ground arith

at_phase :
    {issues pulls : ℕ} {r : RepoNumbers} (i : ℕ) (p : Phase)
    → IsSound issues pulls r
    → r.phase i ≡ p
    → IsInPhase issues pulls r.last_number p
at_phase {issues} {pulls} {r} i p h e = subst (IsInPhase issues pulls r.last_number) e (h.phases i)

-- Every step keeps the invariant.
pub Step-IsSound :
    {issues pulls : ℕ} {r s : RepoNumbers}
    → Step r s
    → IsSound issues pulls r
    → IsSound issues pulls s
Step-IsSound {issues} {pulls} (read_issues r i b e) h = record {
  issues_kept = h.issues_kept;
  pulls_kept = h.pulls_kept;
  phases =
      phases-enter issues pulls r.last_number r.last_number r.phase i _ (le_refl _) h.phases
        (h.issues_kept, (at_phase i _ h e).1);
  distinct = distinct-enter r.phase i _ (sym (ap number_of e)) h.distinct;
}
Step-IsSound {issues} {pulls} (read_pulls r i a e) h = record {
  issues_kept = h.issues_kept;
  pulls_kept = h.pulls_kept;
  phases =
      phases-enter issues pulls r.last_number r.last_number r.phase i _ (le_refl _) h.phases
        ((at_phase i _ h e).0, h.pulls_kept);
  distinct = distinct-enter r.phase i _ (sym (ap number_of e)) h.distinct;
}
Step-IsSound {issues} {pulls} (raise r i a b e) h =
    let (up, floor) = le-raise_to (max a b) r.last_number in
    let (ha, hb) = at_phase i _ h e in
    record {
      issues_kept = h.issues_kept;
      pulls_kept = h.pulls_kept;
      phases = phases-enter issues pulls r.last_number _ r.phase i raised up h.phases (omega arith);
      distinct = distinct-enter r.phase i _ (sym (ap number_of e)) h.distinct;
    }
Step-IsSound {issues} {pulls} (increment r i e) h =
    let here = at_phase i _ h e in
    record {
      issues_kept = h.issues_kept;
      pulls_kept = h.pulls_kept;
      phases =
          phases-enter issues pulls r.last_number _ r.phase i _ (omega arith) h.phases
            (omega arith, omega arith);
      distinct =
          distinct-new issues pulls r.last_number r.phase i _ (omega arith) h.phases h.distinct;
    }
Step-IsSound {issues} {pulls} (store_issue r i n e) h = record {
  issues_kept = omega (arith, h.issues_kept);
  pulls_kept = h.pulls_kept;
  phases =
      phases-enter issues pulls r.last_number r.last_number r.phase i _ (le_refl _) h.phases
        (at_phase i _ h e);
  distinct = distinct-enter r.phase i _ (sym (ap number_of e)) h.distinct;
}
Step-IsSound {issues} {pulls} (store_pull r i n e) h = record {
  issues_kept = h.issues_kept;
  pulls_kept = omega (arith, h.pulls_kept);
  phases =
      phases-enter issues pulls r.last_number r.last_number r.phase i _ (le_refl _) h.phases
        (at_phase i _ h e);
  distinct = distinct-enter r.phase i _ (sym (ap number_of e)) h.distinct;
}

pub Reach-IsSound :
    {issues pulls : ℕ} {r s : RepoNumbers}
    → Reach r s
    → IsSound issues pulls r
    → IsSound issues pulls s
Reach-IsSound here h = h
Reach-IsSound (next reached st) h = Step-IsSound st (Reach-IsSound reached h)
