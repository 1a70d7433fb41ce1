-- ===== src/QuickActions/Permissions.antt =====
-- quick-actions.ts: what a command cannot change for those who may not change it.
use forge_hub.Base.{
  Act, Bool, Keeps, Keeps->>=, Keeps-at, Keeps-catch, Keeps-fetch, Keeps-if, Keeps-modify,
  Keeps-pure, Keeps-update, List, Option, Text, [], catch, codes, false, handle, lower_unit, map,
  modify, none, refl, some, state_after, true, ℕ, ◌++◌, ◌===◌, ◌∷◌, ◌≡◌, ◌>>◌, text-Eq,
}
use forge_hub.QuickActions.Dispatch.{
  close, reopen, title, assign_to, unassign_all, label_with, unlabel_from, estimate_at, spend_time,
  drop_estimate, drop_spent, milestone_at, drop_milestone, unknown, run_command, Command, run_one,
  apply_issue_commands, command_named,
}
use forge_hub.QuickActions.Issue.{
  set_state, allowed_or, set_title, assign_user, target_user, assign, unassign, assign_refused,
  first_word,
}
use forge_hub.QuickActions.Session.{
  Setting, Session, apply, emit, Fields, TicketState, reject, save, same_state, handle_of,
  is_writer, can_modify,
}
use forge_hub.Gates.Checks.{is_text}
use forge_hub.QuickActions.{QuickCommand}

-- A part of the state that holds neither events nor reports.
module _ {X : Type 0} (part : Session → X)
    (applies : (c r : Text) (s : Session) → part (apply c r s) ≡ part s)
    (rejects : (c r : Text) (s : Session) → part (reject c r s) ≡ part s)
    (emits : (kind : Text) (s : Session)
      → part (record s { events = s.events ++ kind ∷ [] }) ≡ part s) where
  Keeps-refused :
      (ok : Bool) (label reason : Text) (body : Act Session (Unit {0}))
      → ok ≡ false
      → Keeps part (allowed_or ok label reason body)
  Keeps-refused true label reason body h = absurd (cc)
  Keeps-refused false label reason body h = Keeps-modify part _ (rejects label reason)

  Keeps-emit : (e : Setting) (kind : Text) → Keeps part (emit e kind)
  unfolding emit handle_of
  Keeps-emit e kind =
      Keeps->>= part _ _ (Keeps->>= part _ _ (Keeps-fetch part _) (λ u. Keeps-pure part _))
        (λ h. Keeps-update part _ (emits kind))

  -- An allowed change, if the part does not hold the field that it saves.
  Keeps-changed :
      (f : Fields → Fields)
      → ((s : Session) → part (record s { row = f s.row }) ≡ part s)
      → ((s : Session) → part (record s { work = f s.work }) ≡ part s)
      → Keeps part (save f)
  unfolding save
  Keeps-changed f row work =
      Keeps->>= part _ _ (Keeps-update part _ row) (λ a. Keeps-modify part _ work)

-- The labels, and the fields for which write access is required.
abbrev WriterPart : Type 0
WriterPart = List Text × (ℕ × ℕ × Option Text)

abbrev pub writer_part : Session → WriterPart
writer_part s = (s.label_rows, (s.row.estimate, s.row.spent, s.row.milestone_id))

Keeps-said : (command summary : Text) → Keeps writer_part (modify (apply command summary))
Keeps-said command summary = Keeps-modify writer_part _ (λ s. refl)

Keeps-emitted : (e : Setting) (kind : Text) → Keeps writer_part (emit e kind)
Keeps-emitted e kind = Keeps-emit writer_part (λ c r s. refl) (λ c r s. refl) (λ k s. refl) e kind

Keeps-reported :
    (e : Setting) (f : Fields → Fields) (kind command summary : Text)
    → Keeps writer_part (save f)
    → Keeps writer_part (do save f; emit e kind; modify (apply command summary))
Keeps-reported e f kind command summary h =
    Keeps->>= writer_part _ _ h
      (λ a. Keeps->>= writer_part _ _ (Keeps-emitted e kind) (λ b. Keeps-said command summary))

Keeps-set_state :
    (e : Setting) (label : Text) (target : TicketState) (before : Fields)
    → Keeps writer_part (set_state e label target before)
unfolding set_state
Keeps-set_state e label target before =
    Keeps-if writer_part (same_state before.state target) _ _ (Keeps-said _ _) (
      Keeps-reported e (λ f. record f { state = target }) _ _ _
        (Keeps-changed writer_part (λ c r s. refl) (λ c r s. refl) (λ k s. refl) _ (λ s. refl)
          (λ s. refl)))

Keeps-set_title :
    (e : Setting) (label text : Text) (before : Fields)
    → Keeps writer_part (set_title e label text before)
unfolding set_title
Keeps-set_title e label [] before = Keeps-modify writer_part _ (λ s. refl)
Keeps-set_title e label (c ∷ s) before =
    Keeps-if writer_part ((c ∷ s) === before.title) _ _ (Keeps-said _ _) (
      Keeps-reported e (λ f. record f { title = c ∷ s }) _ _ _
        (Keeps-changed writer_part (λ c r s. refl) (λ c r s. refl) (λ k s. refl) _ (λ s. refl)
          (λ s. refl)))

Keeps-assign_user :
    (e : Setting) (label token : Text) (before : Fields) (user : Option (Text × Text))
    → Keeps writer_part (assign_user e label token before user)
unfolding assign_user
Keeps-assign_user e label token before none = Keeps-modify writer_part _ (λ s. refl)
Keeps-assign_user e label token before (some (id, handle)) =
    Keeps-if writer_part (is_text before.assignee_id id) _ _ (Keeps-said _ _) (
      Keeps-reported e (λ f. record f { assignee_id = some id }) _ _ _
        (Keeps-changed writer_part (λ c r s. refl) (λ c r s. refl) (λ k s. refl) _ (λ s. refl)
          (λ s. refl)))

Keeps-handle_of : (e : Setting) (id : Text) → Keeps writer_part (handle_of e id)
unfolding handle_of
Keeps-handle_of e id =
    Keeps->>= writer_part _ _ (Keeps-fetch writer_part _) (λ u. Keeps-pure writer_part _)

Keeps-target_user : (e : Setting) (token : Text) → Keeps writer_part (target_user e token)
unfolding target_user
Keeps-target_user e token =
    Keeps-if writer_part (map lower_unit token === codes "me") _ _
      (Keeps->>= writer_part _ _ (Keeps-handle_of e e.actor_id)
        (λ h. Keeps-pure writer_part (some (e.actor_id, h))))
      (Keeps-fetch writer_part _)

Keeps-assign :
    (e : Setting) (label word : Text) (before : Fields)
    → Keeps writer_part (assign e label word before)
unfolding assign
Keeps-assign e label [] before = Keeps-modify writer_part _ (λ s. refl)
Keeps-assign e label (c ∷ s) before =
    Keeps->>= writer_part _ _ (Keeps-target_user e (c ∷ s))
      (λ user. Keeps-assign_user e label (c ∷ s) before user)

Keeps-unassign :
    (e : Setting) (label : Text) (id : Option Text) → Keeps writer_part (unassign e label id)
unfolding unassign
Keeps-unassign e label none = Keeps-said _ _
Keeps-unassign e label (some id) = Keeps->>= writer_part _ _ (Keeps-handle_of e id) (λ prev.
    Keeps-reported e (λ f. record f { assignee_id = none }) (codes "unassigned") _ _
      (Keeps-changed writer_part (λ c r s. refl) (λ c r s. refl) (λ k s. refl) _ (λ s. refl)
        (λ s. refl)))

Keeps-allowed :
    (ok : Bool) (label reason : Text) (body : Act Session (Unit {0}))
    → Keeps writer_part body
    → Keeps writer_part (allowed_or ok label reason body)
Keeps-allowed ok label reason body h =
    Keeps-if writer_part ok _ _ h (Keeps-modify writer_part _ (λ s. refl))

Keeps-denied :
    (ok : Bool) (label reason : Text) (body : Act Session (Unit {0}))
    → ok ≡ false
    → Keeps writer_part (allowed_or ok label reason body)
Keeps-denied = Keeps-refused writer_part (λ c r s. refl) (λ c r s. refl) (λ k s. refl)

run_command-Keeps :
    (e : Setting) (label arg : Text) (before : Fields) (command : Command)
    → is_writer e.repo e.actor_id ≡ false
    → Keeps writer_part (run_command e label arg before command)
unfolding run_command
run_command-Keeps e label arg before close h =
    Keeps-allowed (can_modify e) label _ _ (Keeps-set_state e label _ before)
run_command-Keeps e label arg before reopen h =
    Keeps-allowed (can_modify e) label _ _ (Keeps-set_state e label _ before)
run_command-Keeps e label arg before title h =
    Keeps-allowed (can_modify e) label _ _ (Keeps-set_title e label _ before)
run_command-Keeps e label arg before assign_to h =
    Keeps-allowed (can_modify e) label assign_refused _
      (Keeps-assign e label (first_word arg) before)
run_command-Keeps e label arg before unassign_all h =
    Keeps-allowed (can_modify e) label _ _ (Keeps-unassign e label _)
run_command-Keeps e label arg before label_with h =
    Keeps-denied (is_writer e.repo e.actor_id) label _ _ h
run_command-Keeps e label arg before unlabel_from h =
    Keeps-denied (is_writer e.repo e.actor_id) label _ _ h
run_command-Keeps e label arg before estimate_at h =
    Keeps-denied (is_writer e.repo e.actor_id) label _ _ h
run_command-Keeps e label arg before spend_time h =
    Keeps-denied (is_writer e.repo e.actor_id) label _ _ h
run_command-Keeps e label arg before drop_estimate h =
    Keeps-denied (is_writer e.repo e.actor_id) label _ _ h
run_command-Keeps e label arg before drop_spent h =
    Keeps-denied (is_writer e.repo e.actor_id) label _ _ h
run_command-Keeps e label arg before milestone_at h =
    Keeps-denied (is_writer e.repo e.actor_id) label _ _ h
run_command-Keeps e label arg before drop_milestone h =
    Keeps-denied (is_writer e.repo e.actor_id) label _ _ h
run_command-Keeps e label arg before unknown h = Keeps-modify writer_part _ (λ s. refl)

run_one-Keeps :
    {X : Type 0} (part : Session → X) (e : Setting) (cmd : QuickCommand)
    → ((c r : Text) (s : Session) → part (reject c r s) ≡ part s)
    → ((label arg : Text) (before : Fields) (command : Command)
        → Keeps part (run_command e label arg before command))
    → Keeps part (run_one e cmd)
unfolding run_one Keeps
run_one-Keeps part e cmd rejects h faults s =
    Keeps-at part
      (catch (run_command e (b'/' ∷ cmd.name) cmd.arg s.work (command_named cmd.name))
        (modify (reject (b'/' ∷ cmd.name) (codes "Could not apply this command"))))
      (Keeps-catch part (run_command e (b'/' ∷ cmd.name) cmd.arg s.work (command_named cmd.name))
        (modify (reject (b'/' ∷ cmd.name) (codes "Could not apply this command")))
        (h (b'/' ∷ cmd.name) cmd.arg s.work (command_named cmd.name))
        (Keeps-modify part _ (rejects _ _)))
      faults s

apply-Keeps :
    {X : Type 0} (part : Session → X) (e : Setting) (commands : List QuickCommand)
    → ((c r : Text) (s : Session) → part (reject c r s) ≡ part s)
    → ((label arg : Text) (before : Fields) (command : Command)
        → Keeps part (run_command e label arg before command))
    → Keeps part (apply_issue_commands e commands)
unfolding apply_issue_commands
apply-Keeps part e [] rejects h = Keeps-pure part tt
apply-Keeps part e (cmd ∷ commands) rejects h =
    Keeps->>= part _ _ (run_one-Keeps part e cmd rejects h)
      (λ a. apply-Keeps part e commands rejects h)

-- Commands by a user without write access leave the labels, the estimate, the time spent and the
-- milestone of an issue as they are, whichever calls throw, also if the user is the issue's author.
pub apply_issue_commands-writer_part :
    (e : Setting) (commands : List QuickCommand) (faults : List Bool) (s : Session)
    → is_writer e.repo e.actor_id ≡ false
    → writer_part (state_after (apply_issue_commands e commands faults s)) ≡ writer_part s
apply_issue_commands-writer_part e commands faults s h =
    Keeps-at writer_part _
      (apply-Keeps writer_part e commands (λ c r s. refl)
        (λ label arg before command. run_command-Keeps e label arg before command h))
      faults s
