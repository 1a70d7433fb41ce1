-- ===== src/Base/Digits.antt =====
-- Numbers as decimal text: `String(n)` and `Number(s)` on the natural numbers.
use Prim.Native.Nat.{ℕ, zero, suc, ◌+◌, ◌-◌, ◌*◌, ◌/◌, ◌%◌, ◌<◌}
use mathlib.Core.Path.{◌≡◌, refl, sym, ◌∙◌, ap}
use mathlib.Core.Bool.{Bool, true, ◌&&◌}
use mathlib.Core.List.{[], ◌∷◌, ◌++◌}
use mathlib.Core.Logic.{inl, inr}
use native.Mathlib.Omega.{arith}
use forge_hub.Base.Compare.{ltb, leb, if◌then◌else◌, Bool-cases, ltb→lt}
use forge_hub.Base.Lists.{all}
use forge_hub.Base.Strings.{Text}

abbrev pub is_digit : ℕ → Bool
is_digit c = leb 48 c && leb c 57

show_fuel : ℕ → ℕ → Text
show_fuel zero n = []
show_fuel (suc f) n =
    let more = show_fuel f (n / 10) in
    if ltb n 10 then (48 + n) ∷ [] else more ++ (48 + n % 10) ∷ []

-- `${n}`; a number has at most as many digits as the fuel has rounds.
unfoldable pub show : ℕ → Text
unfolding show_fuel
show n = show_fuel (suc n) n

unfoldable pub value_from : ℕ → Text → ℕ
value_from acc [] = acc
value_from acc (c ∷ s) = value_from (acc * 10 + (c - 48)) s

-- `Number(s)` of a text of digits.
abbrev pub value : Text → ℕ
value s = value_from 0 s

value_from-snoc :
    (acc c : ℕ) (s : Text) → value_from acc (s ++ c ∷ []) ≡ value_from acc s * 10 + (c - 48)
unfolding value_from
value_from-snoc acc c [] = refl
value_from-snoc acc c (d ∷ s) = value_from-snoc (acc * 10 + (d - 48)) c s

value-show_fuel : (f n : ℕ) → n < f → value_from 0 (show_fuel f n) ≡ n
unfolding show_fuel
value-show_fuel zero n h = absurd (omega arith)
value-show_fuel (suc f) n h = elim (Bool-cases (ltb n 10)) [
  | inl e ↦ rw e (unfold value_from in omega arith)
  | inr e ↦
      let big : ¬ (n < 10) = ground arith in
      let ih = value-show_fuel f (n / 10) (omega arith) in
      rw (e, value_from-snoc 0 (48 + n % 10) (show_fuel f (n / 10)), ih) (omega arith)
]

pub value-show : (n : ℕ) → value (show n) ≡ n
unfolding show
value-show n = value-show_fuel (suc n) n (omega arith)

all-snoc :
    (s : Text) (c : ℕ)
    → all is_digit s ≡ true
    → is_digit c ≡ true
    → all is_digit (s ++ c ∷ []) ≡ true
all-snoc [] c h k = ground arith
all-snoc (d ∷ s) c h k = ground (arith, all-snoc s c)

show_fuel-digits : (f n : ℕ) → all is_digit (show_fuel f n) ≡ true
unfolding show_fuel
show_fuel-digits zero n = refl
show_fuel-digits (suc f) n = elim (Bool-cases (ltb n 10)) [
  | inl e ↦ rw e (ground (arith, ltb→lt n 10 e))
  | inr e ↦
      rw e
        (all-snoc (show_fuel f (n / 10)) (48 + n % 10) (show_fuel-digits f (n / 10)) (ground arith))
]

pub show-digits : (n : ℕ) → all is_digit (show n) ≡ true
unfolding show
show-digits n = show_fuel-digits (suc n) n

pub show-injective : (n m : ℕ) → show n ≡ show m → n ≡ m
show-injective n m e = sym (value-show n) ∙ ap value e ∙ value-show m

show_example : show 1205 ≡ 49 ∷ 50 ∷ 48 ∷ 53 ∷ []
unfolding show
show_example = refl

snoc-cons : (s : Text) (c : ℕ) → (d : ℕ) × (ds : Text) × (s ++ c ∷ [] ≡ d ∷ ds)
snoc-cons [] c = (c, [], refl)
snoc-cons (d ∷ ds) c = (d, ds ++ c ∷ [], refl)

pub show-cons : (n : ℕ) → (d : ℕ) × (ds : Text) × (show n ≡ d ∷ ds)
unfolding show show_fuel
show-cons n = elim (Bool-cases (ltb n 10)) [
  | inl e ↦ rw e (48 + n, [], refl)
  | inr e ↦ rw e (snoc-cons (show_fuel n (n / 10)) (48 + n % 10))
]
