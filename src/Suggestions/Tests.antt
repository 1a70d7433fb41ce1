-- ===== src/Suggestions/Tests.antt =====
-- Examples of suggestions.ts.
use forge_hub.Base.{codes, join_with, refl, split_on, ◌≡◌, text-Eq}
use forge_hub.Suggestions.{replaced, apply_suggestion_to_content, lines_of}

second_line_replaced :
    apply_suggestion_to_content (codes "a\nb\n") 2 (codes "c\nd\n") ≡ replaced (codes "a\nc\nd\n")
unfolding apply_suggestion_to_content lines_of split_on join_with
second_line_replaced = refl
