-- ===== src/QuickActions/Tests.antt =====
-- quick-actions.ts: a comment with commands and a code fence.
use forge_hub.Base.{
  List, Text, [], codes, false, join_with, none, refl, some, state_after, true, ◌∷◌, ◌≡◌, text-Eq,
}
use forge_hub.QuickActions.Session.{open_state, merged_state, Setting, Fields, Session, is_writer}
use forge_hub.QuickActions.{parse_quick_actions, parse_lines, QuickCommand}
use forge_hub.QuickActions.Parsing.{parse_lines-kept}
use forge_hub.QuickActions.Pull.{
  PullSession, pull_part, apply_pull_commands, apply_pull_commands-refused,
}
use forge_hub.QuickActions.Dispatch.{apply_issue_commands}
use forge_hub.QuickActions.Permissions.{writer_part, apply_issue_commands-writer_part}

abbrev comment : List Text
comment =
    codes "/close"
    ∷ codes "Done, see below."
    ∷ codes "```"
    ∷ codes "/label ~bug"
    ∷ codes "```"
    ∷ codes "  /Assign @ada  "
    ∷ []

abbrev kept : List Text
kept = codes "Done, see below." ∷ codes "```" ∷ codes "/label ~bug" ∷ codes "```" ∷ []

parse_quick_actions-comment : parse_quick_actions (some (join_with 10 comment)) ≡ record {
  commands =
      record { name = codes "close"; arg = []; raw = codes "/close" }
      ∷ record { name = codes "assign"; arg = codes "@ada"; raw = codes "/Assign @ada" }
      ∷ [];
  body = join_with 10 kept;
}
unfolding parse_quick_actions
parse_quick_actions-comment = refl

parse_lines-kept_example :
    parse_lines none [] [] (parse_lines none [] [] comment).1
    ≡ ([], (parse_lines none [] [] comment).1)
parse_lines-kept_example = parse_lines-kept none comment

abbrev setting : Setting
setting = record {
  repo = record { owner_id = codes "o"; collaborators = (codes "w", codes "WRITER") ∷ [] };
  actor_id = codes "a";
  author_id = codes "a";
  users = (codes "a", codes "ada") ∷ [];
  labels = record { id = codes "l"; name = codes "Bug" } ∷ [];
  milestones = [];
}

abbrev fields : Fields
fields = record {
  state = open_state;
  assignee_id = none;
  title = codes "T";
  estimate = 60;
  spent = 0;
  milestone_id = none;
}

abbrev session : Session
session = record {
  row = fields;
  work = fields;
  label_rows = [];
  loaded = none;
  labels_loaded = false;
  milestones_loaded = false;
  events = [];
  applied = [];
  rejected = [];
}

abbrev command : Text → Text → QuickCommand
command name arg = record { name = name; arg = arg; raw = [] }

abbrev requests : List QuickCommand
requests =
    command (codes "close") []
    ∷ command (codes "label") (codes "~bug")
    ∷ command (codes "assign") (codes "me")
    ∷ []

-- The author closes the issue and takes it, but may not label it.
apply_issue_commands-author :
    (state_after (apply_issue_commands setting requests [] session)).events
    ≡ codes "closed" ∷ codes "assigned" ∷ []
unfolding apply_issue_commands
apply_issue_commands-author = refl

is_writer-author : is_writer setting.repo setting.actor_id ≡ false
unfolding is_writer
is_writer-author = refl

apply_issue_commands-writer_part_example :
    writer_part (state_after (apply_issue_commands setting requests (false ∷ true ∷ []) session))
    ≡ writer_part session
apply_issue_commands-writer_part_example =
    apply_issue_commands-writer_part setting requests (false ∷ true ∷ []) session is_writer-author

abbrev pull_session : PullSession
pull_session = record {
  row = merged_state;
  work = merged_state;
  events = [];
  applied = [];
  rejected = [];
}

apply_pull_commands-refused_example :
    pull_part (state_after (apply_pull_commands setting requests [] pull_session))
    ≡ pull_part pull_session
apply_pull_commands-refused_example =
    apply_pull_commands-refused setting requests [] pull_session refl
