-- ===== src/QuickActions/Dispatch.antt =====
-- quick-actions.ts: the loop over the commands on an issue.
use forge_hub.Base.{
  Act, List, Text, [], catch, codes, get_or, lookup, modify, pure, some, trim, ◌++◌, ◌>>◌, ◌∷◌,
  text-Eq,
}
use forge_hub.QuickActions.Session.{
  open_state, closed_state, Setting, Session, reject, is_writer, Fields, can_modify,
}
use forge_hub.QuickActions.Issue.{
  set_state, set_title, assign, unassign, set_estimate, spend, remove_estimate, remove_spent,
  first_word, allowed_or, change_refused, assign_refused, label_refused,
}
use forge_hub.QuickActions.{QuickCommand, parse_milestone_title}
use forge_hub.QuickActions.LabelCommands.{
  label_command, unlabel_command, milestone_command, remove_milestone,
}
use forge_hub.QuickActions.Labels.{parse_label_tokens}
use forge_hub.Duration.{parse_duration}

-- The labels of the switch.
pub data Command : Type 0 where
  close reopen title assign_to unassign_all label_with unlabel_from estimate_at : Command
  spend_time drop_estimate drop_spent milestone_at drop_milestone unknown : Command

abbrev command_table : List (Text × Command)
command_table =
    (codes "close", close)
    ∷ (codes "reopen", reopen)
    ∷ (codes "title", title)
    ∷ (codes "assign", assign_to)
    ∷ (codes "unassign", unassign_all)
    ∷ (codes "label", label_with)
    ∷ (codes "unlabel", unlabel_from)
    ∷ (codes "estimate", estimate_at)
    ∷ (codes "spend", spend_time)
    ∷ (codes "remove_estimate", drop_estimate)
    ∷ (codes "remove_time_spent", drop_spent)
    ∷ (codes "milestone", milestone_at)
    ∷ (codes "remove_milestone", drop_milestone)
    ∷ []

unfoldable pub command_named : Text → Command
unfolding lookup
command_named name = get_or (lookup name command_table) unknown

-- The switch, with the working copy as the command finds it.
unfoldable pub run_command : Setting → Text → Text → Fields → Command → Act Session (Unit {0})
unfolding set_state set_title assign unassign label_command unlabel_command set_estimate spend
    remove_estimate remove_spent milestone_command remove_milestone is_writer parse_label_tokens
    parse_duration parse_milestone_title trim first_word
run_command e label arg before close =
    allowed_or (can_modify e) label change_refused (set_state e label closed_state before)
run_command e label arg before reopen =
    allowed_or (can_modify e) label change_refused (set_state e label open_state before)
run_command e label arg before title =
    allowed_or (can_modify e) label change_refused (set_title e label (trim arg) before)
run_command e label arg before assign_to =
    allowed_or (can_modify e) label assign_refused (assign e label (first_word arg) before)
run_command e label arg before unassign_all =
    allowed_or (can_modify e) label assign_refused (unassign e label before.assignee_id)
run_command e label arg before label_with =
    allowed_or (is_writer e.repo e.actor_id) label label_refused
      (label_command e label (parse_label_tokens arg))
run_command e label arg before unlabel_from =
    allowed_or (is_writer e.repo e.actor_id) label label_refused
      (unlabel_command e label (parse_label_tokens arg))
run_command e label arg before estimate_at =
    allowed_or (is_writer e.repo e.actor_id) label
      (codes "Write access is required to set an estimate")
      (set_estimate label arg (parse_duration (some arg)))
run_command e label arg before spend_time =
    allowed_or (is_writer e.repo e.actor_id) label (codes "Write access is required to log time")
      (spend label arg (parse_duration (some arg)) before)
run_command e label arg before drop_estimate =
    allowed_or (is_writer e.repo e.actor_id) label
      (codes "Write access is required to change the estimate")
      (remove_estimate label before.estimate)
run_command e label arg before drop_spent =
    allowed_or (is_writer e.repo e.actor_id) label
      (codes "Write access is required to change spent time") (remove_spent label before.spent)
run_command e label arg before milestone_at =
    allowed_or (is_writer e.repo e.actor_id) label
      (codes "Write access is required to set a milestone")
      (milestone_command e label (parse_milestone_title arg) before)
run_command e label arg before drop_milestone =
    allowed_or (is_writer e.repo e.actor_id) label
      (codes "Write access is required to change the milestone")
      (remove_milestone e label before.milestone_id)
run_command e label arg before unknown = modify (reject label (codes "Unknown command " ++ label))

-- The body of the loop: an error is reported against the command.
unfoldable pub run_one : Setting → QuickCommand → Act Session (Unit {0})
unfolding command_named run_command
run_one e cmd faults s =
    let label = b'/' ∷ cmd.name in
    catch (run_command e label cmd.arg s.work (command_named cmd.name))
      (modify (reject label (codes "Could not apply this command"))) faults s

unfoldable pub apply_issue_commands : Setting → List QuickCommand → Act Session (Unit {0})
unfolding run_one
apply_issue_commands e [] = pure tt
apply_issue_commands e (cmd ∷ commands) = run_one e cmd >> apply_issue_commands e commands
