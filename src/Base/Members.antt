-- ===== src/Base/Members.antt =====
-- Membership of lists, under the functions that the components use.
use Prim.Native.Nat.{ℕ, zero, suc}
use mathlib.Core.Path.{◌≡◌, refl, sym, ap, ◌∙◌}
use mathlib.Core.Logic.{◌⊎◌, ◌↔◌, inl, inr}
use mathlib.Core.Bool.{Bool, true}
use mathlib.Core.List.{List, [], ◌∷◌, ◌++◌, map, reverse, reverse_aux}
use native.Mathlib.Omega.{arith}
use forge_hub.Base.Compare.{Bool-cases}
use forge_hub.Base.Lists.{In, Any, filter, drop}

pub In-filter :
    {A : Type 0} (p : A → Bool) (xs : List A) (x : A) → In x (filter p xs) → In x xs × (p x ≡ true)
In-filter p [] x h = absurd h
In-filter p (y ∷ xs) x h = elim (Bool-cases (p y)) [
  | inl t ↦ taken t (In-filter p xs x) (rw t at h)
  | inr f ↦ let (i, e) = In-filter p xs x (rw f at h) in (inr i, e)
]
  where
    taken :
        p y ≡ true
        → (In x (filter p xs) → In x xs × (p x ≡ true))
        → In x (y ∷ filter p xs)
        → In x (y ∷ xs) × (p x ≡ true)
    taken t later (inl e) = (inl e, ap p e ∙ t)
    taken t later (inr i) = let (j, e) = later i in (inr j, e)

pub filter-In :
    {A : Type 0} (p : A → Bool) (xs : List A) (x : A) → In x xs → p x ≡ true → In x (filter p xs)
filter-In p [] x h t = absurd h
filter-In p (y ∷ xs) x (inl e) t = rw (sym (ap p e) ∙ t) (inl e)
filter-In p (y ∷ xs) x (inr h) t = elim (Bool-cases (p y)) [
  | inl q ↦ rw q (inr (filter-In p xs x h t))
  | inr q ↦ rw q (filter-In p xs x h t)
]

pub In-map :
    {A B : Type 0} (f : A → B) (xs : List A) (y : B)
    → In y (map f xs)
    → (x : A) × In x xs × (y ≡ f x)
In-map f [] y h = absurd h
In-map f (x ∷ xs) y (inl e) = (x, inl refl, e)
In-map f (x ∷ xs) y (inr h) = let (z, i, e) = In-map f xs y h in (z, inr i, e)

pub In-drop : {A : Type 0} (n : ℕ) (xs : List A) (x : A) → In x (drop n xs) → In x xs
In-drop zero xs x h = h
In-drop (suc n) [] x h = h
In-drop (suc n) (y ∷ xs) x h = inr (In-drop n xs x h)

In-reverse_aux : {A : Type 0} (xs r : List A) (x : A) → In x (reverse_aux xs r) → In x xs ⊎ In x r
In-reverse_aux [] r x h = inr h
In-reverse_aux (y ∷ xs) r x h = split (In-reverse_aux xs (y ∷ r) x h)
  where
    split : In x xs ⊎ In x (y ∷ r) → In x (y ∷ xs) ⊎ In x r
    split (inl i) = inl (inr i)
    split (inr (inl e)) = inl (inl e)
    split (inr (inr i)) = inr i

pub In-reverse : {A : Type 0} (xs : List A) (x : A) → In x (reverse xs) → In x xs
In-reverse xs x h = elim (In-reverse_aux xs [] x h) [ inl i ↦ i | inr i ↦ absurd i ]

pub Any-In : {A : Type 0} (P : A → Type 0) (xs : List A) → Any P xs → (x : A) × In x xs × P x
Any-In P [] h = absurd h
Any-In P (y ∷ xs) (inl p) = (y, inl refl, p)
Any-In P (y ∷ xs) (inr h) = let (x, i, p) = Any-In P xs h in (x, inr i, p)

pub Any-append :
    {A : Type 0} (P : A → Type 0) (xs ys : List A) → Any P (xs ++ ys) ↔ (Any P xs ⊎ Any P ys)
Any-append P [] ys = (λ h. inr h, λ h. elim h [ inl x ↦ absurd x | inr y ↦ y ])
Any-append P (x ∷ xs) ys = grind (arith, Any-append P xs ys)
