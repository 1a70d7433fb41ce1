-- ===== src/Numbering/Tests.antt =====
-- Examples of numbering.ts.
use forge_hub.Base.{In, [], arith, none, refl, some, ℕ, ◌∷◌, ◌≡◌, ◌≢◌}
use native.Mathlib.Decide.{ℕ_discrete}
use forge_hub.Numbering.{
  read_issues, read_pulls, raise, increment, here, next, RepoNumbers, asking, next_number, Reach,
  number_of,
}
use forge_hub.Numbering.Unique.{number-distinct}

abbrev old_repo : RepoNumbers
old_repo = record {
  last_number = 0;
  issues = 3 ∷ 1 ∷ [];
  pulls = 2 ∷ [];
  phase = λ j. asking none none;
}

after_three : next_number old_repo ≡ 4
unfolding next_number
after_three = refl

-- Two creations that read at the same time, raise the counter and then get their numbers.
interleaved :
    (s : RepoNumbers) × Reach old_repo s
    × (number_of (s.phase 0) ≡ some 4)
    × (number_of (s.phase 1) ≡ some 5)
unfolding ℕ_discrete
interleaved = (
  _,
  next
      (next
        (next
          (next
            (next
              (next (next (next here (read_issues _ 0 none refl)) (read_issues _ 1 none refl))
                (read_pulls _ 1 (some 3) refl))
              (read_pulls _ 0 (some 3) refl))
            (raise _ 0 3 2 refl))
          (raise _ 1 3 2 refl))
        (increment _ 0 refl))
      (increment _ 1 refl),
  refl,
  refl,
)

number-distinct_example : ◌≢◌ {A = ℕ} 4 5 × ¬ In {A = ℕ} 4 (3 ∷ 1 ∷ []) × ¬ In {A = ℕ} 4 (2 ∷ [])
number-distinct_example =
    number-distinct old_repo interleaved.0 0 1 4 5 (λ j. refl) interleaved.1 (omega arith)
      interleaved.2 interleaved.3
