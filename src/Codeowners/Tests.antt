-- ===== src/Codeowners/Tests.antt =====
-- Examples of codeowners.ts.
use forge_hub.Base.{
  In, List, Option, Text, [], codes, done, false, if◌then◌else◌, none, refl, some, split_crlf,
  split_on, state_after, trim, true, ◌===◌, ◌==◌, ◌↔◌, ◌∷◌, ◌≡◌, text-Eq,
}
use forge_hub.Regex.{one, many, dirs, below, Item, matches, not_slash, slash}
use forge_hub.Codeowners.Requests.{
  Setting, CodeownersRepo, CodeownersPull, Requests, apply_codeowners_reviewers, load_codeowners,
  new_row,
}
use forge_hub.Codeowners.{
  parse_codeowners, parse_line, before_hash, split_spaces, add_owners, handle_of, owners_for_path,
  CodeownersRule, normalize_path, owners_for_paths,
}
use forge_hub.Codeowners.Patterns.{
  compile_pattern, compile_from, body, item_at, skip_at, until_bracket, class_of, ranges,
  has_escape,
}
use forge_hub.Codeowners.LastMatch.{owners_for_path-last}
use forge_hub.Codeowners.Names.{compile_pattern-segment}
use forge_hub.Codeowners.Segments.{compile_pattern-name}
use forge_hub.Codeowners.Requests.Additions.{Adds}
use forge_hub.Codeowners.Requests.Automatic.{IsAutomatic}
use forge_hub.Codeowners.Requests.Safety.{apply_codeowners_reviewers-Adds}

no_escapes : Text → Option (List Item)
no_escapes p = none

abbrev file : Text
file = codes "# owners\n*.ts @ann @Bob\ndocs/ @cy team@x.org\n!docs/gen.ts\nsrc/**/[a-c]?.go @dee\n"

owners : Text → List Text
unfolding parse_codeowners parse_line before_hash trim split_spaces compile_pattern compile_from
    body item_at skip_at until_bracket class_of ranges has_escape add_owners handle_of
    owners_for_path split_crlf
owners path = owners_for_path (parse_codeowners no_escapes file) path

extension_owned : owners (codes "a/b.ts") ≡ codes "ann" ∷ codes "bob" ∷ []
unfolding owners
extension_owned = refl

directory_owned : owners (codes "./docs/x.md") ≡ codes "cy" ∷ []
unfolding owners
directory_owned = refl

negated_unowned : owners (codes "docs/gen.ts") ≡ []
unfolding owners
negated_unowned = refl

class_owned : owners (codes "src/x/y/bz.go") ≡ codes "dee" ∷ []
unfolding owners
class_owned = refl

zero_segments_owned : owners (codes "src/bz.go") ≡ codes "dee" ∷ []
unfolding owners
zero_segments_owned = refl

abbrev two_rules : List CodeownersRule
two_rules =
    record {
      line = 1;
      pattern = codes "*";
      owners = codes "ann" ∷ [];
      negated = false;
      match = dirs ∷ many not_slash ∷ below ∷ [];
    }
    ∷ record {
      line = 2;
      pattern = codes "gen";
      owners = [];
      negated = true;
      match = one (λ c. c == b'g') ∷ [];
    }
    ∷ []

owners_for_path-last_example : owners_for_path two_rules (codes "./g") ≡ []
unfolding normalize_path matches
owners_for_path-last_example = owners_for_path-last two_rules (codes "./g")

compile_pattern-segment_example :
    (matches (dirs ∷ one (λ d. d == b'a') ∷ below ∷ []) (codes "x/a/y") ≡ true)
    ↔ In (codes "a") (split_on slash (codes "x/a/y"))
compile_pattern-segment_example =
    compile_pattern-segment no_escapes (codes "a") (codes "x/a/y") _ (λ e. cc, refl)
      (compile_pattern-name no_escapes (codes "a") (λ e. cc, refl)) refl

abbrev setting : Setting
setting = record {
  read_file = λ key ref path. if path === codes "CODEOWNERS" then some file else none;
  changed_files = λ key base head. codes "a.ts" ∷ [];
  users =
      record { id = codes "u1"; handle = codes "ann" }
      ∷ record { id = codes "u2"; handle = codes "bob" }
      ∷ [];
  repos = [];
  pulls = [];
  escaped = no_escapes;
}

abbrev repo : CodeownersRepo
repo = record {
  id = codes "r";
  storage_key = codes "k";
  owner_id = codes "u1";
  collaborators = codes "u2" ∷ [];
}

abbrev pull : CodeownersPull
pull = record {
  id = codes "p";
  number = 7;
  title = codes "t";
  from_branch = codes "dev";
  to_branch = codes "main";
  author_id = codes "u1";
}

abbrev no_requests : Requests
no_requests = record { rows = []; notified = []; events = [] }

ann_is_author :
    apply_codeowners_reviewers setting repo pull (codes "u3") [] no_requests
    ≡ done (codes "bob" ∷ []) [] (record {
      rows = new_row pull (codes "u3") (record { id = codes "u2"; handle = codes "bob" }) ∷ [];
      notified = codes "u2" ∷ [];
      events = codes "bob" ∷ [];
    })
unfolding owners apply_codeowners_reviewers owners_for_paths load_codeowners
ann_is_author = refl

apply_codeowners_reviewers-Adds_example :
    Adds (IsAutomatic setting repo pull (codes "u3")) no_requests (
      state_after
        (apply_codeowners_reviewers setting repo pull (codes "u3") (false ∷ true ∷ []) no_requests))
apply_codeowners_reviewers-Adds_example =
    apply_codeowners_reviewers-Adds setting repo pull (codes "u3") (false ∷ true ∷ []) no_requests
