-- ===== src/Regex/Laws.antt =====
-- Regular expressions: backtracking finds a division of the text, if there is one.
use forge_hub.Base.{
  ==_iff, Bool, List, Text, [], all, and-true, ap, append_assoc, ap₂, inl, inr, or-cases,
  or-true_right, refl, sym, true, ℕ, ◌&&◌, ◌++◌, ◌==◌, ◌↔◌, ◌∙◌, ◌∷◌, ◌≡◌, ◌⊎◌,
}
use forge_hub.Regex.{
  Item, one, many, dirs, below, dot, one_then, many_then, dirs_then, item_then, matches, slash,
}

-- The texts of an item.
abbrev pub Lang : Item → Text → Type 0
Lang (one p) u = (c : ℕ) × (u ≡ c ∷ []) × (p c ≡ true)
Lang (many p) u = all p u ≡ true
Lang dirs u = (u ≡ []) ⊎ ((v : Text) × (all dot v ≡ true) × (u ≡ v ++ slash ∷ []))
Lang below u = (u ≡ []) ⊎ ((v : Text) × (all dot v ≡ true) × (u ≡ slash ∷ v))

-- A text divides into one of the item and one that `P` accepts.
abbrev pub Divides : Item → (Text → Type 0) → Text → Type 0
Divides i P s = (u : Text) × (v : Text) × (s ≡ u ++ v) × Lang i u × P v

-- The text is a concatenation of texts of the items.
abbrev pub Matches : List Item → Text → Type 0
Matches [] s = s ≡ []
Matches (i ∷ is) s = Divides i (Matches is) s

abbrev Accepts : (Text → Bool) → Text → Type 0
Accepts next v = next v ≡ true

pub one_then→ :
    (p : ℕ → Bool) (next : Text → Bool) (s : Text)
    → one_then p next s ≡ true
    → Divides (one p) (Accepts next) s
one_then→ p next [] h = absurd (cc)
one_then→ p next (c ∷ s) h =
    let (hc, hs) = and-true (p c) (next s) h in (c ∷ [], s, refl, (c, refl, hc), hs)

pub →one_then :
    (p : ℕ → Bool) (next : Text → Bool) (c : ℕ) (v : Text)
    → p c ≡ true
    → next v ≡ true
    → one_then p next (c ∷ v) ≡ true
→one_then p next c v hc hv = rw (hc, hv)

pub many_then→ :
    (p : ℕ → Bool) (next : Text → Bool) (s : Text)
    → many_then p next s ≡ true
    → Divides (many p) (Accepts next) s
unfolding many_then
many_then→ p next [] h = ([], [], refl, refl, h)
many_then→ p next (c ∷ s) h = elim (or-cases (next (c ∷ s)) (p c && many_then p next s) h) [
  | inl now ↦ ([], c ∷ s, refl, refl, now)
  | inr later ↦
      let (hc, hs) = and-true (p c) (many_then p next s) later in
      let (u, v, e, l, k) = many_then→ p next s hs in (c ∷ u, v, ap (λ t. c ∷ t) e, rw (hc, l), k)
]

pub →many_then :
    (p : ℕ → Bool) (next : Text → Bool) (u v : Text)
    → all p u ≡ true
    → next v ≡ true
    → many_then p next (u ++ v) ≡ true
unfolding many_then
→many_then p next [] [] h k = k
→many_then p next [] (c ∷ v) h k = rw k
→many_then p next (c ∷ u) v h k =
    let (hc, hu) = and-true (p c) (all p u) h in
    rw (hc, →many_then p next u v hu k) (or-true_right (next (c ∷ u ++ v)) true refl)

dirs_then→ :
    (next : Text → Bool) (s : Text)
    → dirs_then next s ≡ true
    → (v : Text) × (r : Text) × (s ≡ v ++ slash ∷ r) × (all dot v ≡ true) × (next r ≡ true)
unfolding dirs_then
dirs_then→ next [] h = absurd (cc)
dirs_then→ next (c ∷ s) h = elim (or-cases (c == slash && next s) (dot c && dirs_then next s) h) [
  | inl now ↦
      let (hc, hs) = and-true (c == slash) (next s) now in
      ([], s, ap (λ x. x ∷ s) ((==_iff c slash).0 hc), refl, hs)
  | inr later ↦
      let (hc, hs) = and-true (dot c) (dirs_then next s) later in
      let (v, r, e, l, k) = dirs_then→ next s hs in (c ∷ v, r, ap (λ t. c ∷ t) e, rw (hc, l), k)
]

→dirs_then :
    (next : Text → Bool) (v r : Text)
    → all dot v ≡ true
    → next r ≡ true
    → dirs_then next (v ++ slash ∷ r) ≡ true
unfolding dirs_then
→dirs_then next [] r h k = rw k
→dirs_then next (c ∷ v) r h k =
    let (hc, hv) = and-true (dot c) (all dot v) h in
    rw (hc, →dirs_then next v r hv k)
      (or-true_right (c == slash && next (v ++ slash ∷ r)) true refl)

item_then→ :
    (i : Item) (next : Text → Bool) (s : Text)
    → item_then i next s ≡ true
    → Divides i (Accepts next) s
unfolding item_then
item_then→ (one p) next s h = one_then→ p next s h
item_then→ (many p) next s h = many_then→ p next s h
item_then→ dirs next s h = elim (or-cases (next s) (dirs_then next s) h) [
  | inl now ↦ ([], s, refl, inl refl, now)
  | inr later ↦
      let (v, r, e, l, k) = dirs_then→ next s later in
      (v ++ slash ∷ [], r, e ∙ sym (append_assoc v (slash ∷ []) r), inr (v, l, refl), k)
]
item_then→ below next s h =
    elim (or-cases (next s) (one_then (λ c. c == slash) (many_then dot next) s) h) [
      | inl now ↦ ([], s, refl, inl refl, now)
      | inr later ↦
          let (u, r, e, (c, eu, hc), k) =
            one_then→ (λ c. c == slash) (many_then dot next) s later in
          let (v, t, er, l, m) = many_then→ dot next r k in
          (
            slash ∷ v,
            t,
            e ∙ ap₂ ◌++◌ (eu ∙ ap (λ x. x ∷ []) ((==_iff c slash).0 hc)) er,
            inr (v, l, refl),
            m,
          )
    ]

→item_then :
    (i : Item) (next : Text → Bool) (u v : Text)
    → Lang i u
    → next v ≡ true
    → item_then i next (u ++ v) ≡ true
unfolding item_then
→item_then (one p) next u v (c, e, h) k = rw e (→one_then p next c v h k)
→item_then (many p) next u v l k = →many_then p next u v l k
→item_then dirs next u v (inl e) k = rw e (rw k)
→item_then dirs next u v (inr (w, l, e)) k =
    rw (e, append_assoc w (slash ∷ []) v)
      (or-true_right (next (w ++ slash ∷ v)) _ (→dirs_then next w v l k))
→item_then below next u v (inl e) k = rw e (rw k)
→item_then below next u v (inr (w, l, e)) k = rw e (
    or-true_right (next (slash ∷ w ++ v)) _ (
      →one_then (λ c. c == slash) (many_then dot next) slash (w ++ v) refl
        (→many_then dot next w v l k)))

matches→ : (is : List Item) (s : Text) → matches is s ≡ true → Matches is s
unfolding matches
matches→ [] [] h = refl
matches→ [] (c ∷ s) h = absurd (cc)
matches→ (i ∷ is) s h =
    let (u, v, e, l, k) = item_then→ i (matches is) s h in (u, v, e, l, matches→ is v k)

→matches : (is : List Item) (s : Text) → Matches is s → matches is s ≡ true
unfolding matches
→matches [] s h = rw h
→matches (i ∷ is) s (u, v, e, l, k) = rw e (→item_then i (matches is) u v l (→matches is v k))

-- Backtracking decides whether the text is a concatenation of texts of the items.
pub matches_iff : (is : List Item) (s : Text) → (matches is s ≡ true) ↔ Matches is s
matches_iff is s = (matches→ is s, →matches is s)
