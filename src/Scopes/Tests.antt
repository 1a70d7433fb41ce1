-- ===== src/Scopes/Tests.antt =====
-- scopes.ts: a token that may write.
use forge_hub.Base.{List, [], codes, filter, includes, refl, some, true, ◌∷◌, ◌≡◌, text-Eq}
use forge_hub.Scopes.{
  scope-Eq, text_item, repo_read, repo_write, admin_scope, array, PatScope, parse_scopes, has_scope,
  serialize_scopes, normalize_requested_scopes, pat_scopes,
}
use forge_hub.Scopes.Laws.{parse_scopes-serialize_scopes, has_scope-normalize_requested_scopes}

abbrev writer_scopes : List PatScope
writer_scopes = repo_write ∷ repo_write ∷ []

parse_scopes-column :
    parse_scopes (some (codes " admin ,repo:read,root")) ≡ admin_scope ∷ repo_read ∷ []
unfolding parse_scopes
parse_scopes-column = refl

parse_scopes-serialize_scopes_example :
    parse_scopes (some (serialize_scopes writer_scopes))
    ≡ filter (includes writer_scopes) pat_scopes
parse_scopes-serialize_scopes_example = parse_scopes-serialize_scopes writer_scopes

has_scope-normalize_requested_scopes_example :
    has_scope (normalize_requested_scopes (array (text_item (codes "repo:admin") ∷ []))) repo_read
    ≡ true
has_scope-normalize_requested_scopes_example =
    has_scope-normalize_requested_scopes (array (text_item (codes "repo:admin") ∷ []))
