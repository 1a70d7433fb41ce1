-- ===== src/QuickActions/Labels.antt =====
-- quick-actions.ts: the arguments of a label command, parseLabelTokens.
use forge_hub.Base.{
  List, Option, Text, [], codes, if◌then◌else◌, is_space, length, none, refl, some, suc, zero, ℕ,
  ◌+◌, ◌-◌, ◌==◌, ◌∷◌, ◌≡◌, text-Eq,
}

-- The text before the next `q`, if there is one.
unfoldable pub quoted : ℕ → Text → Option Text
quoted q [] = none
quoted q (c ∷ s) = elim (quoted q s) [
  | none ↦ if c == q then some [] else none
  | some t ↦ if c == q then some [] else some (c ∷ t)
]

unfoldable pub take_solid : Text → Text
take_solid [] = []
take_solid (c ∷ s) = let rest = take_solid s in if is_space c then [] else c ∷ rest

-- The group that matches at the start of a text, and how long the match is.
abbrev quoted_token : Option Text → Option (Text × ℕ)
quoted_token none = none
quoted_token (some t) = some (t, length t + 2)

unfoldable pub token_at : Text → Option (Text × ℕ)
unfolding quoted take_solid
token_at [] = none
token_at (c ∷ s) =
    if c == 34
    then quoted_token (quoted 34 s)
    else if c == 39
    then quoted_token (quoted 39 s)
    else if is_space c
    then none
    else some (c ∷ take_solid s, length (take_solid s) + 1)

-- `~?` is tried first; the text itself if that fails.
abbrev after_tilde : Option (Text × ℕ) → Option (Text × ℕ) → Option (Text × ℕ)
after_tilde none whole = whole
after_tilde (some (t, n)) whole = some (t, n + 1)

unfoldable pub match_at : Text → Option (Text × ℕ)
unfolding token_at
match_at [] = none
match_at (c ∷ s) =
    if c == b'~' then after_tilde (token_at s) (token_at (c ∷ s)) else token_at (c ∷ s)

abbrev keep_token : Text → List Text → List Text
keep_token [] tokens = tokens
keep_token (c ∷ t) tokens = (c ∷ t) ∷ tokens

-- The loop of `exec`: `skip` units belong to the last match.
unfoldable pub tokens_from : ℕ → Text → List Text
unfolding match_at
tokens_from skip [] = []
tokens_from (suc skip) (c ∷ s) = tokens_from skip s
tokens_from zero (c ∷ s) = elim (match_at (c ∷ s)) [
  | none ↦ tokens_from zero s
  | some (t, n) ↦ keep_token t (tokens_from (n - 1) s)
]

unfoldable pub parse_label_tokens : Text → List Text
unfolding tokens_from
parse_label_tokens arg = tokens_from zero arg

parse_label_tokens-sigils :
    parse_label_tokens (codes "~bug ~\"help wanted\" 'needs triage' ~ \"open ''")
    ≡ codes "bug" ∷ codes "help wanted" ∷ codes "needs triage" ∷ codes "~" ∷ codes "open" ∷ []
unfolding parse_label_tokens
parse_label_tokens-sigils = refl
