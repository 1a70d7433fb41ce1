-- ===== src/Hooks.antt =====
-- apps/api/src/git-hooks.ts: the rule files, and the pre-receive hook that reads them on a push. The
-- hook is a shell script: `read` and `case` are the shell's, and its match of a tag against a pattern
-- (`sh_case`) and the ancestry of commits (`is_ancestor`) are parameters.
pub mod Shell
pub mod Branches
pub mod Tags
pub mod Tests
use forge_hub.Base.{
  Bool, List, Option, Text, [], all, any, codes, drop, false, filter, if◌then◌else◌, is_empty,
  join_with, length, map, none, not, some, starts_with, trim, true, ◌&&◌, ◌++◌, ◌===◌, ◌||◌, ◌∷◌,
  text-Eq,
}
use forge_hub.Hooks.Shell.{read_two, contains, read_one, file_lines}

pub record ProtectionConfigEntry : Type 0 where
  pub branch : Text
  pub require_pull_request : Bool
  pub block_force_push : Bool

-- `[…].filter(Boolean).join(",")`
abbrev pub flags_of : ProtectionConfigEntry → Text
unfolding join_with
flags_of e = join_with 44 (
    filter (λ f. not (is_empty f))
      ((if e.require_pull_request then codes "pr" else [])
        ∷ (if e.block_force_push then codes "force" else [])
        ∷ []))

abbrev pub rule_line : ProtectionConfigEntry → Text
rule_line e = let flags = flags_of e in if is_empty flags then e.branch else e.branch ++ 32 ∷ flags

-- The content of a rule file; `none`: the file is removed.
abbrev pub lines_file : List Text → Option Text
lines_file [] = none
lines_file (l ∷ ls) = some (join_with 10 (l ∷ ls) ++ 10 ∷ [])

unfoldable pub write_protection_config : List ProtectionConfigEntry → Option Text
write_protection_config entries = lines_file (map rule_line entries)

unfoldable pub write_protected_tags_config : List Text → Option Text
unfolding trim
write_protected_tags_config patterns =
    lines_file (filter (λ p. not (is_empty p)) (map trim patterns))

pub record RefUpdate : Type 0 where
  pub old_sha : Text
  pub new_sha : Text
  pub ref : Text

pub data Verdict : Type 0 where
  accepted : Verdict
  branch_deletion : Verdict
  direct_push : Verdict
  force_push : Verdict
  tag_deletion : Verdict
  tag_move : Verdict

abbrev pub zero_sha : Text
zero_sha = codes "0000000000000000000000000000000000000000"

-- The loop that looks a branch up in the rules.
unfoldable pub find_rule : List Text → Text → Option Text
unfolding read_two
find_rule [] branch = none
find_rule (l ∷ ls) branch =
    let rest = find_rule ls branch in
    if (read_two l).0 === branch then some (read_two l).1 else rest

-- `case ",$flags," in *,flag,*)`
abbrev pub has_flag : Text → Text → Bool
unfolding contains
has_flag flags flag = contains (44 ∷ flags ++ 44 ∷ []) (44 ∷ flag ++ 44 ∷ [])

module _ (is_ancestor : Text → Text → Bool) where
  unfoldable pub check_rule : Option Text → RefUpdate → Verdict
  unfolding contains
  check_rule none up = accepted
  check_rule (some flags) up =
      if up.new_sha === zero_sha
      then branch_deletion
      else if has_flag flags (codes "pr")
      then direct_push
      else if has_flag flags (codes "force")
      then (if not (up.old_sha === zero_sha) && not (is_ancestor up.old_sha up.new_sha)
          then force_push
          else accepted)
      else accepted

  unfoldable pub check_branch : Option Text → Text → RefUpdate → Verdict
  unfolding find_rule check_rule
  check_branch none branch up = accepted
  check_branch (some conf) branch up = check_rule (find_rule (file_lines conf) branch) up

module _ (sh_case : Text → Text → Bool) where
  -- The loop over the tag rules, under the test on the hashes.
  unfoldable pub matches_line : Text → List Text → Bool
  unfolding read_one
  matches_line tag lines =
      any (λ l. let pattern = read_one l in not (is_empty pattern) && sh_case pattern tag) lines

  unfoldable pub check_tag : Option Text → Text → RefUpdate → Verdict
  unfolding matches_line
  check_tag none tag up = accepted
  check_tag (some conf) tag up =
      if (up.new_sha === zero_sha || not (up.old_sha === zero_sha))
        && matches_line tag (file_lines conf)
      then (if up.new_sha === zero_sha then tag_deletion else tag_move)
      else accepted

module _ (is_ancestor sh_case : Text → Text → Bool) where
  -- The body of the hook's loop.
  unfoldable pub check_update : Option Text → Option Text → RefUpdate → Verdict
  unfolding check_branch check_tag
  check_update conf tag_conf up =
      let heads = codes "refs/heads/" in
      let tags = codes "refs/tags/" in
      if starts_with up.ref heads
      then check_branch is_ancestor conf (drop (length heads) up.ref) up
      else if starts_with up.ref tags
      then check_tag sh_case tag_conf (drop (length tags) up.ref) up
      else accepted

  abbrev pub is_accepted : Verdict → Bool
  is_accepted v = elim v [ accepted ↦ true | _ ↦ false ]

  -- Whether the push goes through: the hook's exit status is 0.
  unfoldable pub pre_receive : Bool → Option Text → Option Text → List RefUpdate → Bool
  unfolding check_update
  pre_receive internal_push conf tag_conf updates =
      internal_push || all (λ up. is_accepted (check_update conf tag_conf up)) updates
