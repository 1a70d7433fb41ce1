-- ===== src/Duration/RoundTrip.antt =====
-- duration.ts: what `formatDuration` writes, `parseDuration` reads back.
use native.Mathlib.Nat.{div-mul-le_self}
use forge_hub.Base.{
  All, Bool-cases, List, Text, [], all, ap, append-nil, append_assoc, ap₂, arith, false, inl, inr,
  is_digit, is_empty, join_with, lower_unit, ltb, map, pos, refl, show, show-cons, show-digits,
  some, suc, sym, trim_of_tight, true, value, value-show, value_from, zero, ℕ, ◌*◌, ◌++◌, ◌+◌, ◌-◌,
  ◌/◌, ◌∙◌, ◌∷◌, ◌≡◌,
}
use forge_hub.Duration.Format.{
  flat, is_plain, Chunk, join_with-first, join_with-last, join_with-plain, strip_spaces-join_with,
  parts_from-Chunk,
}
use forge_hub.Duration.{
  unit_minutes, whole_from, sum_chunks, is_unit, after_unit, in_digits, parts_from, units, at_start,
  format_duration, parse_duration, parse_signed, parse_unsigned,
}

-- A run of digits and its unit, read by the automaton and by the scan.
whole_from-chunk :
    (ds : Text) (u : ℕ) (rest : Text)
    → all is_digit ds ≡ true
    → is_unit u ≡ true
    → whole_from after_unit rest ≡ true
    → whole_from in_digits (ds ++ u ∷ rest) ≡ true
unfolding whole_from
whole_from-chunk [] u rest h k w = ground arith
whole_from-chunk (d ∷ ds) u rest h k w = ground (arith, whole_from-chunk ds u rest)

sum_chunks-chunk :
    (acc : Text) (total : ℕ) (ds : Text) (u : ℕ) (rest : Text)
    → all is_digit ds ≡ true
    → is_unit u ≡ true
    → is_empty (acc ++ ds) ≡ false
    → sum_chunks acc total (ds ++ u ∷ rest)
      ≡ sum_chunks [] (total + value (acc ++ ds) * unit_minutes u) rest
unfolding sum_chunks
sum_chunks-chunk acc total [] u rest h k e =
    let not_digit : is_digit u ≡ false = ground arith in
    let seen = rw (append-nil acc) at e in rw (not_digit, k, seen, append-nil acc)
sum_chunks-chunk acc total (d ∷ ds) u rest h k e =
    let digit : is_digit d ≡ true = ground arith in
    let digits : all is_digit ds ≡ true = ground arith in
    let split = append_assoc acc (d ∷ []) ds in
    rw digit (
      sum_chunks-chunk (acc ++ d ∷ []) total ds u rest digits k (rw split e)
      ∙ ap (λ t. sum_chunks [] (total + value t * unit_minutes u) rest) split)

abbrev AreUnits : List ℕ → Type 0
AreUnits us = all is_unit us ≡ true

show-not_empty : (n : ℕ) → is_empty (show n) ≡ false
show-not_empty n = let (d, ds, e) = show-cons n in rw e

whole_from-digits :
    (ds : Text) (u : ℕ) (rest : Text)
    → all is_digit ds ≡ true
    → is_empty ds ≡ false
    → is_unit u ≡ true
    → whole_from after_unit rest ≡ true
    → (whole_from after_unit (ds ++ u ∷ rest) ≡ true)
      × (whole_from at_start (ds ++ u ∷ rest) ≡ true)
unfolding whole_from
whole_from-digits [] u rest h e k w = cc
whole_from-digits (d ∷ ds) u rest h e k w = ground (arith, whole_from-chunk ds u rest)

whole_from-chunks :
    (p : Text) (ps : List Text)
    → Chunk p
    → whole_from after_unit (flat ps) ≡ true
    → (whole_from after_unit (flat (p ∷ ps)) ≡ true)
      × (whole_from at_start (flat (p ∷ ps)) ≡ true)
      × (is_empty (flat (p ∷ ps)) ≡ false)
unfolding flat
whole_from-chunks p ps c w =
    let (d, ds, e) = show-cons c.count in
    let (after, start) =
      whole_from-digits (show c.count) c.unit (flat ps) (show-digits c.count)
        (show-not_empty c.count) c.known w in
    rw (c.spelt, append_assoc (show c.count) (c.unit ∷ []) (flat ps)) (after, start, rw e refl)

whole_from-flat : (ps : List Text) → All Chunk ps → whole_from after_unit (flat ps) ≡ true
unfolding flat whole_from
whole_from-flat [] h = refl
whole_from-flat (p ∷ ps) (c, cs) = (whole_from-chunks p ps c (whole_from-flat ps cs)).0

-- What the units have not used up.
left_over : ℕ → List ℕ → ℕ
left_over rem [] = rem
left_over rem (u ∷ us) = left_over (rem - rem / unit_minutes u * unit_minutes u) us

sum_chunks-flat :
    (total rem : ℕ) (us : List ℕ)
    → AreUnits us
    → sum_chunks [] total (flat (parts_from rem us)) + left_over rem us ≡ total + rem
unfolding parts_from flat left_over
sum_chunks-flat total rem [] h = unfold sum_chunks in refl
sum_chunks-flat total rem (u ∷ us) h =
    let size = unit_minutes u in
    let n = rem / size in
    let unit : is_unit u ≡ true = ground arith in
    let units_left : AreUnits us = ground arith in
    let rest = flat (parts_from (rem - n * size) us) in
    elim (Bool-cases (ltb 0 n)) [
      | inr b ↦
          let zero_parts : n ≡ 0 = ground arith in
          let same : rem - n * size ≡ rem = rw zero_parts (omega arith) in
          rw (b, same) (sum_chunks-flat total rem us units_left)
      | inl b ↦
          rw
            (
              b,
              append_assoc (show n) (u ∷ []) rest,
              sum_chunks-chunk [] total (show n) u rest (show-digits n) unit (show-not_empty n),
              value-show n,
            )
            (omega (
              arith,
              div-mul-le_self rem size,
              sum_chunks-flat (total + n * size) (rem - n * size) us units_left,
            ))
    ]

left_over-units : (rem : ℕ) → left_over rem units ≡ 0
unfolding left_over unit_minutes
left_over-units rem = omega arith

lower-plain : (s : Text) → all is_plain s ≡ true → map lower_unit s ≡ s
unfolding is_plain
lower-plain [] h = refl
lower-plain (c ∷ s) h = ap₂ ◌∷◌ (ground arith) (lower-plain s (ground arith))

parse_signed-digit :
    (d : ℕ) (s : Text) → is_digit d ≡ true → parse_signed (d ∷ s) ≡ parse_unsigned false (d ∷ s)
parse_signed-digit d s h = ground arith

-- Chunks joined by blanks are read as the sum of the chunks.
parse_duration-chunks :
    (p : Text) (ps : List Text)
    → All Chunk (p ∷ ps)
    → parse_duration (some (join_with 32 (p ∷ ps))) ≡ some (pos (sum_chunks [] 0 (flat (p ∷ ps))))
unfolding parse_duration
parse_duration-chunks p ps cs =
    let text = join_with 32 (p ∷ ps) in
    let (d, s, first, digit) = join_with-first p ps cs.0 in
    let (t, u, last, unit) = join_with-last p ps cs in
    let tight = trim_of_tight text d s t u (ground arith) (ground arith) first last in
    let (_, whole, some_text) = whole_from-chunks p ps cs.0 (whole_from-flat ps cs.1) in
    ap parse_signed
      (ap (map lower_unit) tight ∙ lower-plain text (join_with-plain (p ∷ ps) cs) ∙ first)
    ∙ parse_signed-digit d s digit
    ∙ ap (parse_unsigned false) (sym first)
    ∙ rw (strip_spaces-join_with (p ∷ ps) cs, some_text, whole)

from_parts :
    (n : ℕ) (ps : List Text)
    → All Chunk ps
    → sum_chunks [] 0 (flat ps) ≡ suc n
    → parse_duration (some (join_with 32 ps)) ≡ some (pos (suc n))
from_parts n [] cs e = absurd (unfold sum_chunks flat in omega arith)
from_parts n (p ∷ ps) cs e = parse_duration-chunks p ps cs ∙ ap (λ t. some (pos t)) e

format_duration-parts :
    (n : ℕ) → format_duration (pos (suc n)) ≡ join_with 32 (parts_from (suc n) units)
unfolding format_duration
format_duration-parts n = refl

-- Parsing a formatted duration gives back its minutes, for every whole number of minutes.
pub parse_duration-format_duration :
    (n : ℕ) → parse_duration (some (format_duration (pos n))) ≡ some (pos n)
parse_duration-format_duration zero = unfold format_duration parse_duration value_from in refl
parse_duration-format_duration (suc n) = rw (format_duration-parts n) (
    from_parts n (parts_from (suc n) units) (parts_from-Chunk (suc n) units refl)
      (omega (arith, sum_chunks-flat 0 (suc n) units refl, left_over-units (suc n))))
