-- ===== src/Reactions.antt =====
-- apps/web/src/lib/reactions.ts: the reaction pills and the optimistic toggle.
pub mod Laws
pub mod Tests
use forge_hub.Base.{
  Bool, List, Text, [], codes, filter, get_or, if◌then◌else◌, includes, insert, leb, lookup, ltb,
  map, not, remove, ℕ, ◌++◌, ◌+◌, ◌-◌, ◌===◌, ◌∷◌, text-Eq,
}
use forge_hub.Base.{text-Eq}

abbrev pub reaction_emojis : List Text
reaction_emojis =
    codes "+1"
    ∷ codes "-1"
    ∷ codes "laugh"
    ∷ codes "confused"
    ∷ codes "heart"
    ∷ codes "hooray"
    ∷ codes "rocket"
    ∷ codes "eyes"
    ∷ []

-- Counts by emoji, and the emoji of the viewer.
pub record ReactionState : Type 0 where
  pub reactions : List (Text × ℕ)
  pub viewer_reacted : List Text

-- A pill, without its glyph.
pub record ReactionPill : Type 0 where
  pub emoji : Text
  pub count_shown : ℕ
  pub viewer : Bool

-- `state.reactions[emoji] ?? 0`
unfoldable pub count_of : ReactionState → Text → ℕ
unfolding lookup
count_of s emoji = get_or (lookup emoji s.reactions) 0

unfoldable pub reaction_pills : ReactionState → List ReactionPill
unfolding count_of
reaction_pills s =
    map
      (λ emoji. record {
        emoji = emoji;
        count_shown = count_of s emoji;
        viewer = includes s.viewer_reacted emoji;
      })
      (filter (λ emoji. ltb 0 (count_of s emoji)) reaction_emojis)

unfoldable pub toggle_reaction : ReactionState → Text → ReactionState
unfolding count_of insert remove
toggle_reaction s emoji =
    let n = count_of s emoji in
    if includes s.viewer_reacted emoji
    then record {
      reactions = if leb n 1 then remove emoji s.reactions else insert emoji (n - 1) s.reactions;
      viewer_reacted = filter (λ e. not (e === emoji)) s.viewer_reacted;
    }
    else record {
      reactions = insert emoji (n + 1) s.reactions;
      viewer_reacted = s.viewer_reacted ++ emoji ∷ [];
    }
