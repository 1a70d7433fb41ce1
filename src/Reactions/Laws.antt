-- ===== src/Reactions/Laws.antt =====
-- reactions.ts: what one and two toggles do.
use forge_hub.Base.{
  ===-self, ===→eq, Bool, Bool-cases, Distinct, Distinct-insert, Distinct-remove, List, Text, [],
  any-append, ap, arith, false, filter, get_or, if_true, if◌then◌else◌, includes, inl, inr, insert,
  leb, leb→le, lookup, lookup-insert, lookup-remove, not, remove, text-Eq, true, ℕ, ◌+◌, ◌-◌, ◌===◌,
  ◌∙◌, ◌∷◌, ◌≡◌, ◌≤◌,
}
use forge_hub.Reactions.{ReactionState, count_of, toggle_reaction}

-- The emoji are distinct keys, and those of the viewer are counted.
abbrev pub IsConsistent : ReactionState → Type 0
IsConsistent s =
    Distinct s.reactions
    × ((emoji : Text) → includes s.viewer_reacted emoji ≡ true → 1 ≤ count_of s emoji)

includes-without :
    (l : List Text) (x y : Text)
    → includes (filter (λ (e : Text). not (e === x)) l) y
      ≡ (if x === y then false else includes l y)
includes-without [] x y = elim (Bool-cases (x === y)) [ inl h ↦ rw h | inr h ↦ rw h ]
includes-without (z ∷ l) x y =
    ground
      (arith, text-Eq.beq_iff z x, text-Eq.beq_iff x y, text-Eq.beq_iff z y, includes-without l x y)

toggle_reaction-viewer :
    (s : ReactionState) (emoji other : Text)
    → includes (toggle_reaction s emoji).viewer_reacted other ≡ (
        if emoji === other
        then not (includes s.viewer_reacted emoji)
        else includes s.viewer_reacted other)
unfolding toggle_reaction
toggle_reaction-viewer s emoji other = elim (Bool-cases (includes s.viewer_reacted emoji)) [
  | inl h ↦ rw h (includes-without s.viewer_reacted emoji other)
  | inr h ↦
      rw (h, any-append (λ (x : Text). x === other) s.viewer_reacted (emoji ∷ []))
        (ground (arith, text-Eq.beq_iff emoji other))
]

get-insert :
    (k j : Text) (n : ℕ) (m : List (Text × ℕ))
    → get_or (lookup j (insert k n m)) 0 ≡ (if k === j then n else get_or (lookup j m) 0)
get-insert k j n m =
    rw (lookup-insert k j n m) (elim (Bool-cases (k === j)) [ inl h ↦ rw h | inr h ↦ rw h ])

get-remove :
    (k j : Text) (n : ℕ) (m : List (Text × ℕ))
    → Distinct m
    → n ≤ 1
    → get_or (lookup j (remove k m)) 0 ≡ (if k === j then n - 1 else get_or (lookup j m) 0)
get-remove k j n m d h =
    rw (lookup-remove k j m d)
      (elim (Bool-cases (k === j)) [ inl l ↦ rw l (omega arith) | inr l ↦ rw l ])

toggle_reaction-count :
    (s : ReactionState) (emoji other : Text)
    → Distinct s.reactions
    → count_of (toggle_reaction s emoji) other ≡ (
        if emoji === other
        then (if includes s.viewer_reacted emoji
            then count_of s emoji - 1
            else count_of s emoji + 1)
        else count_of s other)
unfolding toggle_reaction count_of
toggle_reaction-count s emoji other d = elim (Bool-cases (includes s.viewer_reacted emoji)) [
  | inr h ↦ rw h (get-insert emoji other (count_of s emoji + 1) s.reactions)
  | inl h ↦ elim (Bool-cases (leb (count_of s emoji) 1)) [
    | inl l ↦
        rw (h, l)
          (get-remove emoji other (count_of s emoji) s.reactions d (leb→le (count_of s emoji) 1 l))
    | inr l ↦ rw (h, l) (get-insert emoji other (count_of s emoji - 1) s.reactions)
  ]
]

Distinct-toggle :
    (s : ReactionState) (emoji : Text)
    → Distinct s.reactions
    → Distinct (toggle_reaction s emoji).reactions
unfolding toggle_reaction
Distinct-toggle s emoji d = elim (Bool-cases (includes s.viewer_reacted emoji)) [
  | inr h ↦ rw h (Distinct-insert emoji _ s.reactions d)
  | inl h ↦ elim (Bool-cases (leb (count_of s emoji) 1)) [
    | inl l ↦ rw (h, l) (Distinct-remove emoji s.reactions d)
    | inr l ↦ rw (h, l) (Distinct-insert emoji _ s.reactions d)
  ]
]

undo-count :
    (same has has_once : Bool) (n m n_once m_once m_twice : ℕ)
    → (same ≡ true → n ≡ m)
    → (has ≡ true → 1 ≤ n)
    → has_once ≡ not has
    → n_once ≡ (if has then n - 1 else n + 1)
    → m_once ≡ (if same then (if has then n - 1 else n + 1) else m)
    → m_twice ≡ (if same then (if has_once then n_once - 1 else n_once + 1) else m_once)
    → m_twice ≡ m
undo-count same has has_once n m n_once m_once m_twice h1 h2 h3 h4 h5 h6 = ground arith

undo-viewer :
    (same has has_once other other_once other_twice : Bool)
    → (same ≡ true → has ≡ other)
    → has_once ≡ not has
    → other_once ≡ (if same then not has else other)
    → other_twice ≡ (if same then not has_once else other_once)
    → other_twice ≡ other
undo-viewer same has has_once other other_once other_twice h1 h2 h3 h4 = ground arith

-- In a state whose emoji are distinct and count those of the viewer, toggling an emoji twice gives
-- back every count and the viewer's reactions: a second toggle undoes the first.
pub toggle_reaction-toggle_reaction :
    (s : ReactionState) (emoji other : Text)
    → IsConsistent s
    → (count_of (toggle_reaction (toggle_reaction s emoji) emoji) other ≡ count_of s other)
      × (includes (toggle_reaction (toggle_reaction s emoji) emoji).viewer_reacted other
          ≡ includes s.viewer_reacted other)
toggle_reaction-toggle_reaction s emoji other (d, counted) = (
  undo-count (emoji === other) (includes s.viewer_reacted emoji) _ (count_of s emoji)
      (count_of s other) _ _ _ (λ h. ap (count_of s) (===→eq emoji other h)) (counted emoji)
      (toggle_reaction-viewer s emoji emoji ∙ if_true (emoji === emoji) _ _ (===-self emoji))
      (toggle_reaction-count s emoji emoji d ∙ if_true (emoji === emoji) _ _ (===-self emoji))
      (toggle_reaction-count s emoji other d)
      (toggle_reaction-count (toggle_reaction s emoji) emoji other (Distinct-toggle s emoji d)),
  undo-viewer (emoji === other) (includes s.viewer_reacted emoji) _
      (includes s.viewer_reacted other) _ _
      (λ h. ap (includes s.viewer_reacted) (===→eq emoji other h))
      (toggle_reaction-viewer s emoji emoji ∙ if_true (emoji === emoji) _ _ (===-self emoji))
      (toggle_reaction-viewer s emoji other)
      (toggle_reaction-viewer (toggle_reaction s emoji) emoji other),
)
