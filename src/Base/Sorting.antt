-- ===== src/Base/Sorting.antt =====
-- Stable sorting by a number, and how many elements pass a test.
use Prim.Native.Nat.{ℕ, ◌+◌, ◌≤◌}
use native.Mathlib.Nat.{le_trans}
use mathlib.Core.Path.{◌≡◌, refl}
use mathlib.Core.Logic.{◌↔◌, inl, inr}
use mathlib.Core.Bool.{Bool, false}
use mathlib.Core.List.{List, [], ◌∷◌, ◌++◌, map, reverse_aux, reverse}
use native.Mathlib.Omega.{arith}
use forge_hub.Base.Compare.{leb, if◌then◌else◌, Bool-cases, leb→le, leb-false→lt}
use forge_hub.Base.Lists.{length, filter, any, All, length-append, filter-append}

-- `sort` with a comparison of keys: least first, equal keys in the order of the list.
unfoldable pub insert_by : {A : Type 0} → (A → ℕ) → A → List A → List A
insert_by key x [] = x ∷ []
insert_by key x (y ∷ ys) =
    let rest = insert_by key x ys in if leb (key x) (key y) then x ∷ y ∷ ys else y ∷ rest

unfoldable pub sort_by : {A : Type 0} → (A → ℕ) → List A → List A
unfolding insert_by
sort_by key [] = []
sort_by key (x ∷ xs) = insert_by key x (sort_by key xs)

abbrev pub count : {A : Type 0} → (A → Bool) → List A → ℕ
count p xs = length (filter p xs)

module _ {A : Type 0} where
  count-insert_by :
      (key : A → ℕ) (p : A → Bool) (x : A) (xs : List A)
      → count p (insert_by key x xs) ≡ count p (x ∷ xs)
  unfolding insert_by
  count-insert_by key p x [] = refl
  count-insert_by key p x (y ∷ ys) = ground (arith, count-insert_by key p x ys)

  pub count-sort_by :
      (key : A → ℕ) (p : A → Bool) (xs : List A) → count p (sort_by key xs) ≡ count p xs
  unfolding sort_by
  count-sort_by key p [] = refl
  count-sort_by key p (x ∷ xs) =
      ground (arith, count-insert_by key p x (sort_by key xs), count-sort_by key p xs)

  count-reverse_aux :
      (p : A → Bool) (xs r : List A) → count p (reverse_aux xs r) ≡ count p xs + count p r
  count-reverse_aux p [] r = omega arith
  count-reverse_aux p (x ∷ xs) r = ground (arith, count-reverse_aux p xs (x ∷ r))

  pub count-reverse : (p : A → Bool) (xs : List A) → count p (reverse xs) ≡ count p xs
  count-reverse p xs = omega (arith, count-reverse_aux p xs [])

  pub count-append : (p : A → Bool) (xs ys : List A) → count p (xs ++ ys) ≡ count p xs + count p ys
  count-append p xs ys = rw (filter-append p xs ys) (length-append (filter p xs) (filter p ys))

  pub count-zero_iff : (p : A → Bool) (xs : List A) → (count p xs ≡ 0) ↔ (any p xs ≡ false)
  count-zero_iff p [] = (λ _. refl, λ _. refl)
  count-zero_iff p (x ∷ xs) = ground (arith, count-zero_iff p xs)

module _ {A B : Type 0} where
  pub any-map : (p : B → Bool) (f : A → B) (xs : List A) → any p (map f xs) ≡ any (λ x. p (f x)) xs
  any-map p f [] = refl
  any-map p f (x ∷ xs) = ground (arith, any-map p f xs)

module _ {A : Type 0} where
  -- The keys of a list do not fall.
  abbrev pub IsSortedBy : (A → ℕ) → List A → Type 0
  IsSortedBy key [] = Unit
  IsSortedBy key (x ∷ xs) = All (λ y. key x ≤ key y) xs × IsSortedBy key xs

  All-insert_by :
      (key : A → ℕ) (P : A → Type 0) (x : A) (xs : List A)
      → P x
      → All P xs
      → All P (insert_by key x xs)
  unfolding insert_by
  All-insert_by key P x [] p h = (p, tt)
  All-insert_by key P x (y ∷ ys) p (q, h) = elim (Bool-cases (leb (key x) (key y))) [
    | inl e ↦ rw e (p, (q, h))
    | inr e ↦ rw e (q, All-insert_by key P x ys p h)
  ]

  pub All-below :
      (key : A → ℕ) (m n : ℕ) (xs : List A)
      → m ≤ n
      → All (λ y. n ≤ key y) xs
      → All (λ y. m ≤ key y) xs
  All-below key m n [] le h = tt
  All-below key m n (x ∷ xs) le (p, h) = (le_trans le p, All-below key m n xs le h)

  insert_by-IsSortedBy :
      (key : A → ℕ) (x : A) (xs : List A) → IsSortedBy key xs → IsSortedBy key (insert_by key x xs)
  unfolding insert_by
  insert_by-IsSortedBy key x [] h = (tt, tt)
  insert_by-IsSortedBy key x (y ∷ ys) (least, h) = elim (Bool-cases (leb (key x) (key y))) [
    | inl e ↦
        let le = leb→le (key x) (key y) e in
        rw e ((le, All-below key (key x) (key y) ys le least), (least, h))
    | inr e ↦
        let lt = leb-false→lt (key x) (key y) e in
        rw e (
          All-insert_by key (λ z. key y ≤ key z) x ys (omega arith) least,
          insert_by-IsSortedBy key x ys h,
        )
  ]

  pub sort_by-IsSortedBy : (key : A → ℕ) (xs : List A) → IsSortedBy key (sort_by key xs)
  unfolding sort_by
  sort_by-IsSortedBy key [] = tt
  sort_by-IsSortedBy key (x ∷ xs) =
      insert_by-IsSortedBy key x (sort_by key xs) (sort_by-IsSortedBy key xs)
