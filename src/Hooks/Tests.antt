-- ===== src/Hooks/Tests.antt =====
-- Examples of git-hooks.ts, with a shell match that the tests can run.
use forge_hub.Base.{
  ==-self, ==_iff, Bool, Bool-cases, List, Text, [], all, ap, codes, false, if◌then◌else◌, inl, inr,
  is_empty, join_with, none, refl, some, split_on, trim, true, ℕ, ◌++◌, ◌==◌, ◌∙◌, ◌∷◌, ◌≡◌,
  text-Eq,
}
use forge_hub.Hooks.{
  ProtectionConfigEntry, RefUpdate, direct_push, tag_deletion, write_protection_config,
  check_update, zero_sha, check_tag, write_protected_tags_config, matches_line,
}
use forge_hub.Hooks.Tags.{IsShellCase, ShMatches, check_tag_of_protected}
use forge_hub.Ci.Glob.{
  is_tag_protected, star, join_segments, literals, tag_matches_pattern, glob_match,
}
use forge_hub.Regex.{many_then, one_then, matches, item_then}
use forge_hub.Hooks.Branches.{check_update-protects}
use forge_hub.Regex.Laws.{many_then→, →many_then, one_then→}
use forge_hub.Hooks.Shell.{read_one}

any_unit : ℕ → Bool
any_unit c = true

sh_glob : Text → Text → Bool
unfolding many_then any_unit
sh_glob [] s = is_empty s
sh_glob (c ∷ p) s =
    let next = sh_glob p in
    if c == star then many_then any_unit next s else one_then (λ d. d == c) next s

all_any : (u : Text) → all any_unit u ≡ true
unfolding any_unit
all_any [] = refl
all_any (c ∷ u) = all_any u

sh_glob→ : (p s : Text) → sh_glob p s ≡ true → ShMatches p s
unfolding sh_glob
sh_glob→ [] [] h = refl
sh_glob→ [] (c ∷ s) h = absurd (cc)
sh_glob→ (c ∷ p) s h = elim (Bool-cases (c == star)) [
  | inl e ↦
      let (u, v, parts, _, k) = many_then→ any_unit (sh_glob p) s (rw e at h) in
      inl ((==_iff c star).0 e, u, v, parts, sh_glob→ p v k)
  | inr n ↦
      let (u, v, parts, (d, eu, hd), k) = one_then→ (λ d. d == c) (sh_glob p) s (rw n at h) in
      let same : u ++ v ≡ c ∷ v = ap (λ t. t ++ v) eu ∙ ap (λ x. x ∷ v) ((==_iff d c).0 hd) in
      inr (λ q. cc (n, (==_iff c star).1 q), v, parts ∙ same, sh_glob→ p v k)
]

→sh_glob : (p s : Text) → ShMatches p s → sh_glob p s ≡ true
unfolding sh_glob
→sh_glob [] s h = rw h
→sh_glob (c ∷ p) s (inl (e, u, v, parts, k)) =
    rw (parts, (==_iff c star).1 e)
      (→many_then any_unit (sh_glob p) u v (all_any u) (→sh_glob p v k))
→sh_glob (c ∷ p) s (inr (n, v, parts, k)) = elim (Bool-cases (c == star)) [
  | inl e ↦ absurd (n ((==_iff c star).0 e))
  | inr e ↦ rw (parts, e, ==-self c) (→sh_glob p v k)
]

sh_glob-IsShellCase : IsShellCase sh_glob
sh_glob-IsShellCase p s plain = (sh_glob→ p s, →sh_glob p s)

never : Text → Text → Bool
never a b = false

abbrev rules : List ProtectionConfigEntry
rules =
    record { branch = codes "main"; require_pull_request = true; block_force_push = true }
    ∷ record { branch = codes "dev"; require_pull_request = false; block_force_push = false }
    ∷ []

abbrev push_to_main : RefUpdate
push_to_main = record { old_sha = codes "a1"; new_sha = codes "b2"; ref = codes "refs/heads/main" }

main_file : write_protection_config rules ≡ some (codes "main pr,force\ndev\n")
unfolding write_protection_config join_with
main_file = refl

check_update-protects_example :
    check_update never sh_glob (write_protection_config rules) none push_to_main ≡ direct_push
check_update-protects_example =
    check_update-protects never sh_glob rules none (codes "main") push_to_main
      ((λ e. cc, refl), ((λ e. cc, refl), tt)) refl

abbrev deletion : RefUpdate
deletion = record { old_sha = codes "a1"; new_sha = zero_sha; ref = codes "refs/tags/v1" }

check_tag_of_protected_example :
    check_tag sh_glob (write_protected_tags_config (codes "v*" ∷ [])) (codes "v1") deletion
    ≡ tag_deletion
check_tag_of_protected_example =
    check_tag_of_protected sh_glob (codes "v*" ∷ []) (codes "v1") deletion sh_glob-IsShellCase
      ((λ e. cc, refl), tt)
      (unfold is_tag_protected tag_matches_pattern glob_match split_on join_segments literals
          matches item_then many_then in
        refl)

-- The star of the API stops at a slash, that of the hook does not.
nested_tag_deletable : is_tag_protected (codes "v*" ∷ []) (codes "v/1") ≡ false
unfolding is_tag_protected split_on join_segments literals matches item_then many_then
nested_tag_deletable = refl

nested_tag_protected :
    check_tag sh_glob (write_protected_tags_config (codes "v*" ∷ [])) (codes "v/1") deletion
    ≡ tag_deletion
unfolding check_tag write_protected_tags_config trim matches_line read_one sh_glob split_on
    join_with
nested_tag_protected = refl
