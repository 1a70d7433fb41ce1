-- ===== src/Scopes.antt =====
-- apps/api/src/scopes.ts: the scopes of a personal access token.
pub mod Laws
pub mod Tests
use forge_hub.Base.{
  Bool, Eq, List, Option, Text, [], codes, false, filter, filter_map, find, if◌then◌else◌, includes,
  join_with, map, none, refl, some, split_on, trim, true, ◌&&◌, ◌===◌, ◌↔◌, ◌∷◌, ◌≡◌, text-Eq,
}

pub data PatScope : Type 0 where
  repo_read repo_write admin_scope : PatScope

abbrev pub scope_text : PatScope → Text
scope_text repo_read = codes "repo:read"
scope_text repo_write = codes "repo:write"
scope_text admin_scope = codes "admin"

abbrev pub same_scope : PatScope → PatScope → Bool
same_scope repo_read repo_read = true
same_scope repo_write repo_write = true
same_scope admin_scope admin_scope = true
same_scope repo_read repo_write = false
same_scope repo_read admin_scope = false
same_scope repo_write repo_read = false
same_scope repo_write admin_scope = false
same_scope admin_scope repo_read = false
same_scope admin_scope repo_write = false

pub same_scope_iff : (a b : PatScope) → (same_scope a b ≡ true) ↔ (a ≡ b)
same_scope_iff repo_read repo_read = (λ _. refl, λ _. refl)
same_scope_iff repo_write repo_write = (λ _. refl, λ _. refl)
same_scope_iff admin_scope admin_scope = (λ _. refl, λ _. refl)
same_scope_iff repo_read repo_write = (λ e. absurd (cc), λ e. absurd (cc))
same_scope_iff repo_read admin_scope = (λ e. absurd (cc), λ e. absurd (cc))
same_scope_iff repo_write repo_read = (λ e. absurd (cc), λ e. absurd (cc))
same_scope_iff repo_write admin_scope = (λ e. absurd (cc), λ e. absurd (cc))
same_scope_iff admin_scope repo_read = (λ e. absurd (cc), λ e. absurd (cc))
same_scope_iff admin_scope repo_write = (λ e. absurd (cc), λ e. absurd (cc))

instance abbrev pub scope-Eq : Eq PatScope
scope-Eq = record { beq = same_scope; beq_iff = same_scope_iff }

abbrev pub pat_scopes : List PatScope
pat_scopes = repo_read ∷ repo_write ∷ admin_scope ∷ []

abbrev pub full_scopes : List PatScope
full_scopes = pat_scopes

-- `isPatScope`, with the scope that the text names.
unfoldable pub scope_of : Text → Option PatScope
scope_of s = find (λ p. scope_text p === s) pat_scopes

-- `!raw` holds of null, undefined and the empty text.
unfoldable pub parse_scopes : Option Text → List PatScope
unfolding scope_of split_on trim
parse_scopes none = []
parse_scopes (some []) = []
parse_scopes (some (c ∷ s)) = filter_map scope_of (map trim (split_on b',' (c ∷ s)))

unfoldable pub serialize_scopes : List PatScope → Text
unfolding join_with
serialize_scopes scopes = join_with b',' (map scope_text (filter (includes scopes) pat_scopes))

-- A caller's value: an array of texts and other values, or no array.
pub data Item : Type 0 where
  text_item : Text → Item
  other_item : Item

pub data ScopesInput : Type 0 where
  array : List Item → ScopesInput
  not_array : ScopesInput

abbrev scope_of_item : Item → Option PatScope
unfolding scope_of
scope_of_item (text_item s) = scope_of s
scope_of_item other_item = none

abbrev pub or_full : List PatScope → List PatScope
or_full [] = full_scopes
or_full (s ∷ ss) = s ∷ ss

unfoldable pub normalize_requested_scopes : ScopesInput → List PatScope
unfolding scope_of_item
normalize_requested_scopes not_array = full_scopes
normalize_requested_scopes (array items) =
    let valid = filter_map scope_of_item items in or_full (filter (includes valid) pat_scopes)

unfoldable pub has_scope : List PatScope → PatScope → Bool
has_scope scopes required =
    if includes scopes required
    then true
    else if includes scopes admin_scope
    then true
    else if required === repo_read && includes scopes repo_write
    then true
    else false
