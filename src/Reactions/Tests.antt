-- ===== src/Reactions/Tests.antt =====
-- reactions.ts: a heart taken back by a second click.
use forge_hub.Base.{Text, [], codes, lookup, map, refl, ◌∷◌, ◌≡◌, text-Eq}
use forge_hub.Base.{text-Eq}
use forge_hub.Reactions.{ReactionState, toggle_reaction, reaction_pills}
use forge_hub.Reactions.Laws.{IsConsistent}

abbrev heart : Text
heart = codes "heart"

abbrev state : ReactionState
state = record { reactions = (codes "eyes", 2) ∷ []; viewer_reacted = [] }

state-IsConsistent : IsConsistent state
state-IsConsistent = unfold lookup in ((refl, tt), λ emoji h. absurd (cc))

reaction_pills-once :
    map (λ p. p.count_shown) (reaction_pills (toggle_reaction state heart)) ≡ 1 ∷ 2 ∷ []
unfolding reaction_pills toggle_reaction
reaction_pills-once = refl
