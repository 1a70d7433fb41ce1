-- ===== src/Regex.antt =====
-- The regular expressions that ci/workflows.ts and codeowners.ts build: sequences of items, matched
-- against the whole text by backtracking, as `new RegExp("^…$").test` does.
pub mod Laws
use forge_hub.Base.{Bool, List, Text, [], false, is_empty, not, ℕ, ◌&&◌, ◌==◌, ◌||◌, ◌∷◌}

pub data Item : Type 0 where
  -- one character, `c*`, `(?:.*/)?` and `(?:/.*)?`
  one : (ℕ → Bool) → Item
  many : (ℕ → Bool) → Item
  dirs : Item
  below : Item

abbrev pub slash : ℕ
slash = 47

-- `[^/]` and `.`
abbrev pub not_slash : ℕ → Bool
not_slash c = not (c == slash)

abbrev pub dot : ℕ → Bool
dot c = not (c == 10 || c == 13 || c == 0x2028 || c == 0x2029)

-- `c*`, followed by what `next` accepts.
unfoldable pub many_then : (ℕ → Bool) → (Text → Bool) → Text → Bool
many_then p next [] = next []
many_then p next (c ∷ s) = let rest = many_then p next s in next (c ∷ s) || (p c && rest)

-- `.*/`, followed by what `next` accepts.
unfoldable pub dirs_then : (Text → Bool) → Text → Bool
dirs_then next [] = false
dirs_then next (c ∷ s) = let rest = dirs_then next s in (c == slash && next s) || (dot c && rest)

abbrev pub one_then : (ℕ → Bool) → (Text → Bool) → Text → Bool
one_then p next [] = false
one_then p next (c ∷ s) = p c && next s

unfoldable pub item_then : Item → (Text → Bool) → Text → Bool
unfolding many_then dirs_then
item_then (one p) next s = one_then p next s
item_then (many p) next s = many_then p next s
item_then dirs next s = next s || dirs_then next s
item_then below next s = next s || one_then (λ c. c == slash) (many_then dot next) s

unfoldable pub matches : List Item → Text → Bool
unfolding item_then
matches [] s = is_empty s
matches (i ∷ is) s = item_then i (matches is) s
