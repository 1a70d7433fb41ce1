-- ===== src/Hooks/Branches.antt =====
-- git-hooks.ts: the hook enforces the protected branches that writeProtectionConfig was given.
use forge_hub.Base.{
  All, Bool, Bool-cases, Lacks, List, Option, Text, [], all, ap, append-nil, arith, codes,
  drop_last, drop_last-snoc, false, find, if◌then◌else◌, inl, inr, join_with, map, none, not, refl,
  some, split_on-join_with, split_on-snoc, sym, true, ℕ, ◌&&◌, ◌++◌, ◌===◌, ◌∙◌, ◌∷◌, ◌≡◌, ◌≢◌,
  text-Eq,
}
use forge_hub.Hooks.{
  ProtectionConfigEntry, RefUpdate, Verdict, accepted, branch_deletion, direct_push, force_push,
  rule_line, flags_of, find_rule, zero_sha, check_rule, contains, check_branch, check_update,
  write_protection_config,
}
use forge_hub.Hooks.Shell.{
  contains, read_two, file_lines, first_word, skip_ifs, is_ifs, after_word, trim_ifs_end,
}

-- A branch name: a character at least, and no white space of the shell.
abbrev pub IsBranchName : Text → Type 0
IsBranchName b = (b ≢ []) × (all (λ c. not (is_ifs c)) b ≡ true)

skip_ifs_of_name : (b r : Text) → IsBranchName b → skip_ifs (b ++ r) ≡ b ++ r
unfolding skip_ifs
skip_ifs_of_name [] r (h, _) = absurd (h refl)
skip_ifs_of_name (c ∷ b) r (_, h) = ground arith

word_of_name :
    (b r : Text)
    → all (λ c. not (is_ifs c)) b ≡ true
    → (first_word (b ++ 32 ∷ r) ≡ b) × (after_word (b ++ 32 ∷ r) ≡ 32 ∷ r)
unfolding first_word after_word
word_of_name [] r h = (refl, refl)
word_of_name (c ∷ b) r h = ground (arith, word_of_name b r)

word_of_last :
    (b : Text) → all (λ c. not (is_ifs c)) b ≡ true → (first_word b ≡ b) × (after_word b ≡ [])
unfolding first_word after_word
word_of_last [] h = (refl, refl)
word_of_last (c ∷ b) h = ground (arith, word_of_last b)

read_two-name :
    (b flags : Text)
    → IsBranchName b
    → trim_ifs_end (skip_ifs (32 ∷ flags)) ≡ flags
    → read_two (b ++ 32 ∷ flags) ≡ (b, flags)
unfolding read_two
read_two-name b flags h e =
    let (first, rest) = word_of_name b flags h.1 in
    rw (skip_ifs_of_name b (32 ∷ flags) h, first, rest, e)

read_two-last : (b : Text) → IsBranchName b → read_two b ≡ (b, [])
unfolding read_two
read_two-last b h =
    let (first, rest) = word_of_last b h.1 in
    let same : skip_ifs b ≡ b =
      ap skip_ifs (sym (append-nil b)) ∙ skip_ifs_of_name b [] h ∙ append-nil b in
    rw (same, first, rest) (unfold skip_ifs trim_ifs_end in refl)

-- A line reads back as its branch and flags.
read_two-rule_line :
    (e : ProtectionConfigEntry)
    → IsBranchName e.branch
    → read_two (rule_line e) ≡ (e.branch, flags_of e)
unfolding join_with
read_two-rule_line e h = line e.require_pull_request e.block_force_push
  where
    line :
        (pr force : Bool)
        → let x : ProtectionConfigEntry = record {
          branch = e.branch;
          require_pull_request = pr;
          block_force_push = force;
        } in
          read_two (rule_line x) ≡ (e.branch, flags_of x)
    line true true = read_two-name e.branch _ h (unfold skip_ifs trim_ifs_end in refl)
    line true false = read_two-name e.branch _ h (unfold skip_ifs trim_ifs_end in refl)
    line false true = read_two-name e.branch _ h (unfold skip_ifs trim_ifs_end in refl)
    line false false = read_two-last e.branch h

abbrev is_rule_for : Text → ProtectionConfigEntry → Bool
is_rule_for branch e = e.branch === branch

abbrev AreNamed : List ProtectionConfigEntry → Type 0
AreNamed entries = All (λ (e : ProtectionConfigEntry). IsBranchName e.branch) entries

abbrev flags_found : Option ProtectionConfigEntry → Option Text
flags_found none = none
flags_found (some e) = some (flags_of e)

find_rule-cons :
    (l : Text) (ls : List Text) (branch w f : Text)
    → read_two l ≡ (w, f)
    → find_rule (l ∷ ls) branch ≡ (if w === branch then some f else find_rule ls branch)
unfolding find_rule
find_rule-cons l ls branch w f e =
    ap (λ (p : Text × Text). if p.0 === branch then some p.1 else find_rule ls branch) e

find_rule-map :
    (entries : List ProtectionConfigEntry) (branch : Text)
    → AreNamed entries
    → find_rule (map rule_line entries) branch ≡ flags_found (find (is_rule_for branch) entries)
find_rule-map [] branch h = unfold find_rule in refl
find_rule-map (e ∷ es) branch (h, hs) =
    let first =
      find_rule-cons (rule_line e) (map rule_line es) branch e.branch (flags_of e)
        (read_two-rule_line e h) in
    elim (Bool-cases (e.branch === branch)) [
      | inl t ↦ first ∙ rw t refl
      | inr f ↦ first ∙ rw f (find_rule-map es branch hs)
    ]

-- The rules of the database, applied to an update of a branch.
abbrev pub verdict_on : (Text → Text → Bool) → Option ProtectionConfigEntry → RefUpdate → Verdict
verdict_on is_ancestor none up = accepted
verdict_on is_ancestor (some e) up =
    if up.new_sha === zero_sha
    then branch_deletion
    else if e.require_pull_request
    then direct_push
    else if e.block_force_push
        && not (up.old_sha === zero_sha)
        && not (is_ancestor up.old_sha up.new_sha)
    then force_push
    else accepted

check_rule-flags_found :
    (is_ancestor : Text → Text → Bool) (found : Option ProtectionConfigEntry) (up : RefUpdate)
    → check_rule is_ancestor (flags_found found) up ≡ verdict_on is_ancestor found up
unfolding check_rule join_with contains
check_rule-flags_found is_ancestor none up = refl
check_rule-flags_found is_ancestor (some e) up = flags e.require_pull_request e.block_force_push
  where
    flags :
        (pr force : Bool)
        → let x : ProtectionConfigEntry = record {
          branch = e.branch;
          require_pull_request = pr;
          block_force_push = force;
        } in
          check_rule is_ancestor (some (flags_of x)) up ≡ verdict_on is_ancestor (some x) up
    flags true true = refl
    flags true false = refl
    flags false true = refl
    flags false false = refl

-- The lines of a file that was written are those that were given.
pub file_lines-lines_file :
    (l : Text) (ls : List Text)
    → All (Lacks 10) (l ∷ ls)
    → file_lines (join_with 10 (l ∷ ls) ++ 10 ∷ []) ≡ l ∷ ls
file_lines-lines_file l ls h =
    ap drop_last (
      split_on-snoc 10 (join_with 10 (l ∷ ls))
      ∙ ap (λ t. t ++ [] ∷ []) (split_on-join_with 10 l ls h))
    ∙ drop_last-snoc (l ∷ ls) []

Lacks-append : (c : ℕ) (s t : Text) → Lacks c s → Lacks c t → Lacks c (s ++ t)
Lacks-append c [] t h k = k
Lacks-append c (x ∷ s) t (h, hs) k = (h, Lacks-append c s t hs k)

Lacks-name : (b : Text) → all (λ c. not (is_ifs c)) b ≡ true → Lacks 10 b
Lacks-name [] h = tt
Lacks-name (c ∷ b) h = (ground arith, Lacks-name b (ground arith))

rule_line-Lacks : (e : ProtectionConfigEntry) → IsBranchName e.branch → Lacks 10 (rule_line e)
unfolding join_with
rule_line-Lacks e h = line e.require_pull_request e.block_force_push
  where
    name : Lacks 10 e.branch
    name = Lacks-name e.branch h.1

    line :
        (pr force : Bool)
        → let x : ProtectionConfigEntry = record {
          branch = e.branch;
          require_pull_request = pr;
          block_force_push = force;
        } in
          Lacks 10 (rule_line x)
    line true true = Lacks-append 10 e.branch _ name (search refl)
    line true false = Lacks-append 10 e.branch _ name (search refl)
    line false true = Lacks-append 10 e.branch _ name (search refl)
    line false false = name

lines-Lacks : (es : List ProtectionConfigEntry) → AreNamed es → All (Lacks 10) (map rule_line es)
lines-Lacks [] h = tt
lines-Lacks (e ∷ es) (h, hs) = (rule_line-Lacks e h, lines-Lacks es hs)

check_branch-written :
    (is_ancestor : Text → Text → Bool) (entries : List ProtectionConfigEntry) (branch : Text)
    (up : RefUpdate)
    → AreNamed entries
    → check_branch is_ancestor (write_protection_config entries) branch up
      ≡ verdict_on is_ancestor (find (is_rule_for branch) entries) up
unfolding check_branch write_protection_config
check_branch-written is_ancestor [] branch up h = refl
check_branch-written is_ancestor (e ∷ es) branch up h =
    ap (λ ls. check_rule is_ancestor (find_rule ls branch) up)
      (file_lines-lines_file (rule_line e) (map rule_line es) (lines-Lacks (e ∷ es) h))
    ∙ ap (λ r. check_rule is_ancestor r up) (find_rule-map (e ∷ es) branch h)
    ∙ check_rule-flags_found is_ancestor (find (is_rule_for branch) (e ∷ es)) up

-- On a push to a branch the hook, which reads the file that was written for the protected branches,
-- comes to the verdict that the first of their rows for this branch calls for: no deletion, no direct
-- push where pull requests are required, and no push that drops commits where force pushes are
-- blocked. A branch without a row is free. The names have no white space and are not empty.
pub check_update-protects :
    (is_ancestor sh_case : Text → Text → Bool) (entries : List ProtectionConfigEntry)
    (tag_conf : Option Text) (branch : Text) (up : RefUpdate)
    → All (λ (e : ProtectionConfigEntry). IsBranchName e.branch) entries
    → up.ref ≡ codes "refs/heads/" ++ branch
    → check_update is_ancestor sh_case (write_protection_config entries) tag_conf up
      ≡ verdict_on is_ancestor
          (find (λ (e : ProtectionConfigEntry). e.branch === branch) entries)
          up
unfolding check_update
check_update-protects is_ancestor sh_case entries tag_conf branch up h e =
    simp e (check_branch-written is_ancestor entries branch up h)
