-- ===== src/Numbering/Unique.antt =====
-- numbering.ts: no number is given out twice, whatever the creations' calls interleave to.
use forge_hub.Base.{
  In, List, [], ap, arith, inl, inr, le_refl, none, some, subst, sym, ℕ, ◌∙◌, ◌∷◌, ◌≡◌, ◌≢◌, ◌≤◌,
}
use forge_hub.Numbering.{RepoNumbers, Reach, asking, number_of, highest}
use forge_hub.Numbering.Invariant.{IsSound, Reach-IsSound, IsInPhase, number-le}

le-highest : (n : ℕ) (ns : List ℕ) → In n ns → n ≤ highest ns
le-highest n [] h = absurd h
le-highest n (m ∷ ns) (inl e) = omega (arith, e)
le-highest n (m ∷ ns) (inr h) = omega (arith, le-highest n ns h)

abbrev pub IsQuiet : RepoNumbers → Type 0
IsQuiet r = (j : ℕ) → r.phase j ≡ asking none none

IsQuiet-IsSound : (r : RepoNumbers) → IsQuiet r → IsSound (highest r.issues) (highest r.pulls) r
IsQuiet-IsSound r q = record {
  issues_kept = le_refl _;
  pulls_kept = le_refl _;
  phases = λ j. subst (IsInPhase _ _ r.last_number) (sym (q j)) (tt, tt);
  distinct = λ j k m n ne hj hk. absurd (none-some (sym (ap number_of (q j)) ∙ hj));
}
  where
    none-some : {m : ℕ} → none ≡ some m → ⊥
    none-some e = cc

-- From a repository with any numbers and any counter, two creations that have got a number, in any
-- interleaving of the calls, have different ones, and no row that was there at the start has one.
pub number-distinct :
    (r s : RepoNumbers) (j k m n : ℕ)
    → IsQuiet r
    → Reach r s
    → j ≢ k
    → number_of (s.phase j) ≡ some m
    → number_of (s.phase k) ≡ some n
    → (m ≢ n) × ¬ In m r.issues × ¬ In m r.pulls
number-distinct r s j k m n quiet reached ne hj hk =
    let sound = Reach-IsSound reached (IsQuiet-IsSound r quiet) in
    let (above, _) = number-le _ _ s.last_number (s.phase j) m (sound.phases j) hj in
    (
      sound.distinct j k m n ne hj hk,
      λ i. absurd (omega (arith, le-highest m r.issues i)),
      λ i. absurd (omega (arith, le-highest m r.pulls i)),
    )
