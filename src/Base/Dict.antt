-- ===== src/Base/Dict.antt =====
-- A `Map` or an object of the source: an association list in the order of insertion.

use mathlib.Core.Path.{◌≡◌, refl, sym, ◌∙◌, ap}
use mathlib.Core.Option.{Option, none, some}
use mathlib.Core.Bool.{Bool, false}
use mathlib.Core.List.{List, [], ◌∷◌}
use native.Mathlib.Omega.{arith}
use forge_hub.Base.Compare.{if◌then◌else◌, Eq, ◌===◌, Bool-cases, ===→eq, ===-self}
use forge_hub.Base.Lists.{any}
use mathlib.Core.Logic.{◌↔◌, inl, inr}

module _ {K V : Type 0} ⦃e : Eq K⦄ where
  -- `m.get(k)`, `m[k]`
  unfoldable pub lookup : K → List (K × V) → Option V
  lookup k [] = none
  lookup k ((j, v) ∷ m) = if j === k then some v else lookup k m

  -- `m.set(k, v)`, `m[k] = v`: a key that is there keeps its place.
  unfoldable pub insert : K → V → List (K × V) → List (K × V)
  insert k v [] = (k, v) ∷ []
  insert k v ((j, w) ∷ m) = if j === k then (k, v) ∷ m else (j, w) ∷ insert k v m

  -- `m.delete(k)`, `delete m[k]`
  unfoldable pub remove : K → List (K × V) → List (K × V)
  remove k [] = []
  remove k ((j, w) ∷ m) = if j === k then m else (j, w) ∷ remove k m

  pub lookup-insert :
      (k j : K) (v : V) (m : List (K × V))
      → lookup j (insert k v m) ≡ (if k === j then some v else lookup j m)
  unfolding lookup insert
  lookup-insert k j v [] = refl
  lookup-insert k j v ((i, w) ∷ m) =
      ground (arith, e.beq_iff k j, e.beq_iff i k, e.beq_iff i j, lookup-insert k j v m)

  -- No key stands twice.
  abbrev pub Distinct : List (K × V) → Type 0
  Distinct [] = Unit
  Distinct ((j, v) ∷ m) = (lookup j m ≡ none) × Distinct m

  pub Distinct-insert : (k : K) (v : V) (m : List (K × V)) → Distinct m → Distinct (insert k v m)
  unfolding lookup insert
  Distinct-insert k v [] d = (refl, tt)
  Distinct-insert k v ((j, w) ∷ m) (fresh, d) = elim (Bool-cases (j === k)) [
    | inl h ↦ rw h (rw (sym (===→eq j k h)) fresh, d)
    | inr h ↦ rw h (
      lookup-insert k j v m ∙ ground (arith, e.beq_iff k j, e.beq_iff j k),
      Distinct-insert k v m d,
    )
  ]

  -- A test fails on all values exactly when it fails on whatever a key finds.
  pub any-lookup :
      (q : V → Bool) (m : List (K × V))
      → Distinct m
      → (any (λ (p : K × V). q p.1) m ≡ false)
        ↔ ((k : K) (v : V) → lookup k m ≡ some v → q v ≡ false)
  unfolding lookup
  any-lookup q [] d = (λ _ k v h. cc, λ _. refl)
  any-lookup q ((j, w) ∷ m) (fresh, d) =
      let (to, back) = any-lookup q m d in
      (
        λ h k v found. elim (Bool-cases (j === k)) [
          | inl t ↦ ground (arith, rw t at found)
          | inr f ↦ to (ground arith) k v (rw f at found)
        ],
        λ h.
            let first = h j w (rw (===-self j) refl) in
            let rest = back (λ k v found. h k v (later k v found)) in ground arith,
      )
    where
      later :
          (k : K) (v : V) → lookup k m ≡ some v → (if j === k then some w else lookup k m) ≡ some v
      later k v found = elim (Bool-cases (j === k)) [
        | inl t ↦ absurd (cc (fresh, ap (λ i. lookup i m) (===→eq j k t), found))
        | inr f ↦ rw f found
      ]

  pub lookup-remove :
      (k j : K) (m : List (K × V))
      → Distinct m
      → lookup j (remove k m) ≡ (if k === j then none else lookup j m)
  unfolding lookup remove
  lookup-remove k j [] d = elim (Bool-cases (k === j)) [ inl h ↦ rw h | inr h ↦ rw h ]
  lookup-remove k j ((i, w) ∷ m) (fresh, d) = elim (Bool-cases (i === k)) [
    | inl h ↦
        let same = ===→eq i k h in
        elim (Bool-cases (k === j)) [
          | inl l ↦ rw (h, l) (rw (sym (===→eq k j l), sym same) fresh)
          | inr l ↦ rw (h, same, l)
        ]
    | inr h ↦ ground (arith, e.beq_iff i k, e.beq_iff k j, e.beq_iff i j, lookup-remove k j m d)
  ]

  pub Distinct-remove : (k : K) (m : List (K × V)) → Distinct m → Distinct (remove k m)
  unfolding lookup remove
  Distinct-remove k [] d = tt
  Distinct-remove k ((j, w) ∷ m) (fresh, d) = elim (Bool-cases (j === k)) [
    | inl h ↦ rw h d
    | inr h ↦ rw h (lookup-remove k j m d ∙ still k j m fresh, Distinct-remove k m d)
  ]
    where
      still :
          (k j : K) (m : List (K × V))
          → lookup j m ≡ none
          → (if k === j then none else lookup j m) ≡ none
      still k j m fresh = elim (Bool-cases (k === j)) [ inl l ↦ rw l | inr l ↦ rw l fresh ]
