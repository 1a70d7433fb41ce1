-- ===== src/Duration/Format.antt =====
-- duration.ts: the shape of what `formatDuration` writes.
use forge_hub.Base.{
  All, Bool, Bool-cases, List, Text, [], all, all-append, all_mono, append-nil, append_assoc, ap₂,
  arith, filter-append, filter_of_all, inl, inr, is_digit, is_space, join_with, ltb, not, refl,
  show, show-cons, show-digits, sym, true, ℕ, ◌*◌, ◌++◌, ◌-◌, ◌/◌, ◌==◌, ◌||◌, ◌∙◌, ◌∷◌, ◌≡◌,
}
use forge_hub.Duration.{parts_from, is_unit, unit_minutes, strip_spaces}

-- A number and its unit.
pub record Chunk (p : Text) : Type 0 where
  pub count : ℕ
  pub unit : ℕ
  pub spelt : p ≡ show count ++ unit ∷ []
  pub known : is_unit unit ≡ true

pub parts_from-Chunk :
    (rem : ℕ) (us : List ℕ) → all is_unit us ≡ true → All Chunk (parts_from rem us)
unfolding parts_from
parts_from-Chunk rem [] h = tt
parts_from-Chunk rem (u ∷ us) h =
    let n = rem / unit_minutes u in
    let unit : is_unit u ≡ true = ground arith in
    let units_left : all is_unit us ≡ true = ground arith in
    elim (Bool-cases (ltb 0 n)) [
      | inr b ↦ rw b (parts_from-Chunk rem us units_left)
      | inl b ↦ rw b (
        record { count = n; unit = u; spelt = refl; known = unit },
        parts_from-Chunk (rem - n * unit_minutes u) us units_left,
      )
    ]

unfoldable pub is_plain : ℕ → Bool
is_plain c = is_digit c || is_unit c || c == 32

Chunk-plain :
    {p : Text} → Chunk p → (all is_plain p ≡ true) × (all (λ c. not (is_space c)) p ≡ true)
unfolding is_plain
Chunk-plain c =
    let digits = show-digits c.count in
    let plain = all_mono is_digit is_plain (show c.count) (λ x h. ground arith) digits in
    let dark =
      all_mono is_digit (λ x. not (is_space x)) (show c.count) (λ x h. ground arith) digits in
    rw
      (
        c.spelt,
        all-append is_plain (show c.count) (c.unit ∷ []),
        all-append (λ x. not (is_space x)) (show c.count) (c.unit ∷ []),
        plain,
        dark,
      )
      (let k = c.known in (ground arith, ground arith))

pub join_with-plain : (ps : List Text) → All Chunk ps → all is_plain (join_with 32 ps) ≡ true
unfolding join_with is_plain
join_with-plain [] h = refl
join_with-plain (p ∷ []) (h, _) = (Chunk-plain h).0
join_with-plain (p ∷ q ∷ ps) (h, hs) =
    rw (all-append is_plain p (32 ∷ join_with 32 (q ∷ ps)), (Chunk-plain h).0)
      (join_with-plain (q ∷ ps) hs)

unfoldable pub flat : List Text → Text
flat [] = []
flat (s ∷ ss) = s ++ flat ss

pub strip_spaces-join_with :
    (ps : List Text) → All Chunk ps → strip_spaces (join_with 32 ps) ≡ flat ps
unfolding join_with flat
strip_spaces-join_with [] h = refl
strip_spaces-join_with (p ∷ []) (h, _) =
    filter_of_all (λ c. not (is_space c)) p (Chunk-plain h).1 ∙ sym (append-nil p)
strip_spaces-join_with (p ∷ q ∷ ps) (h, hs) =
    filter-append (λ c. not (is_space c)) p (32 ∷ join_with 32 (q ∷ ps))
    ∙ ap₂ ◌++◌ (filter_of_all (λ c. not (is_space c)) p (Chunk-plain h).1)
        (strip_spaces-join_with (q ∷ ps) hs)

Chunk-first : {p : Text} → Chunk p → (d : ℕ) × (s : Text) × (p ≡ d ∷ s) × (is_digit d ≡ true)
Chunk-first c =
    let (d, ds, e) = show-cons c.count in
    let digits = rw e at (show-digits c.count) in
    (d, ds ++ c.unit ∷ [], c.spelt ∙ rw e refl, ground arith)

-- The first character is a digit.
pub join_with-first :
    (p : Text) (ps : List Text)
    → Chunk p
    → (d : ℕ) × (s : Text) × (join_with 32 (p ∷ ps) ≡ d ∷ s) × (is_digit d ≡ true)
unfolding join_with
join_with-first p [] c = Chunk-first c
join_with-first p (q ∷ ps) c =
    let (d, s, e, k) = Chunk-first c in (d, s ++ 32 ∷ join_with 32 (q ∷ ps), rw e refl, k)

-- The last character is a unit.
pub join_with-last :
    (p : Text) (ps : List Text)
    → All Chunk (p ∷ ps)
    → (t : Text) × (u : ℕ) × (join_with 32 (p ∷ ps) ≡ t ++ u ∷ []) × (is_unit u ≡ true)
unfolding join_with
join_with-last p [] (c, _) = (show c.count, c.unit, c.spelt, c.known)
join_with-last p (q ∷ ps) (c, cs) =
    let (t, u, e, k) = join_with-last q ps cs in
    (p ++ 32 ∷ t, u, rw e (sym (append_assoc p (32 ∷ t) (u ∷ []))), k)
