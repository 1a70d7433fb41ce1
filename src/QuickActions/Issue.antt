-- ===== src/QuickActions/Issue.antt =====
-- quick-actions.ts: the commands on an issue, applyIssueCommands.
use forge_hub.Base.{
  Act, Bool, Option, Text, [], codes, fetch, find, handle, if◌then◌else◌, lower_unit, map, modify,
  negsuc, none, pos, pure, some, suc, trim_start, zero, ℕ, ℤ, ◌++◌, ◌+◌, ◌-◌, ◌===◌, ◌==◌, ◌∷◌,
  ◌>>=◌, ◌>>◌, text-Eq,
}
use forge_hub.QuickActions.Session.{
  open_state, closed_state, merged_state, Session, TicketState, save, Setting, handle_of, reject,
  emit, Fields, apply, same_state,
}
use forge_hub.QuickActions.Labels.{take_solid}
use forge_hub.Duration.{format_duration}
use forge_hub.Gates.Checks.{is_text}

abbrev pub change_refused : Text
change_refused = codes "You need to be the author or a writer to change this issue"

abbrev pub assign_refused : Text
assign_refused = codes "You need to be the author or a writer to change assignees"

abbrev pub label_refused : Text
label_refused = codes "Write access is required to change labels"

-- A command for those who pass a test.
abbrev pub allowed_or : Bool → Text → Text → Act Session (Unit {0}) → Act Session (Unit {0})
allowed_or ok label reason body = if ok then body else modify (reject label reason)

abbrev state_text : TicketState → Text
state_text open_state = codes "open"
state_text closed_state = codes "closed"
state_text merged_state = codes "merged"

abbrev state_done : TicketState → Text
state_done open_state = codes "Reopened this issue"
state_done closed_state = codes "Closed this issue"
state_done merged_state = []

abbrev state_kind : TicketState → Text
state_kind open_state = codes "reopened"
state_kind closed_state = codes "closed"
state_kind merged_state = []

-- `close` and `reopen`, with the fields as the command finds them.
unfoldable pub set_state : Setting → Text → TicketState → Fields → Act Session (Unit {0})
unfolding save emit
set_state e label target before =
    if same_state before.state target
    then modify (apply label (codes "This issue is already " ++ state_text target))
    else (do
      save (λ f. record f { state = target })
      emit e (state_kind target)
      modify (apply label (state_done target)))

unfoldable pub set_title : Setting → Text → Text → Fields → Act Session (Unit {0})
unfolding save emit
set_title e label [] before = modify (reject label (codes "A new title is required"))
set_title e label (c ∷ s) before =
    if (c ∷ s) === before.title then modify (apply label (codes "Title is unchanged")) else (do
      save (λ f. record f { title = c ∷ s })
      emit e (codes "title_changed")
      modify (apply label (codes "Changed the title to “" ++ c ∷ s ++ codes "”")))

-- `arg.split(/\s+/).filter(Boolean)[0]`, empty if there is none.
unfoldable pub first_word : Text → Text
unfolding take_solid trim_start
first_word arg = take_solid (trim_start arg)

abbrev strip_at : Text → Text
strip_at [] = []
strip_at (c ∷ s) = if c == b'@' then s else c ∷ s

abbrev with_at : Text → Text
with_at [] = b'@' ∷ []
with_at (c ∷ s) = if c == b'@' then c ∷ s else b'@' ∷ c ∷ s

abbrev user_with : Setting → Text → Option (Text × Text)
user_with e handle = find (λ (u : Text × Text). u.1 === handle) e.users

-- The user that the word names.
unfoldable pub target_user : Setting → Text → Act Session (Option (Text × Text))
unfolding handle_of
target_user e token =
    if map lower_unit token === codes "me"
    then (do handle ← handle_of e e.actor_id; pure (some (e.actor_id, handle)))
    else fetch (λ s. user_with e (map lower_unit (strip_at token)))

unfoldable pub assign_user :
    Setting → Text → Text → Fields → Option (Text × Text) → Act Session (Unit {0})
unfolding save emit
assign_user e label token before none =
    modify (reject label (codes "There is no user " ++ with_at token))
assign_user e label token before (some (id, handle)) =
    if is_text before.assignee_id id
    then modify (apply label (b'@' ∷ handle ++ codes " is already assigned"))
    else (do
      save (λ f. record f { assignee_id = some id })
      emit e (codes "assigned")
      modify (apply label (codes "Assigned @" ++ handle)))

unfoldable pub assign : Setting → Text → Text → Fields → Act Session (Unit {0})
unfolding target_user assign_user
assign e label [] before =
    modify
      (reject label (codes "A user to assign is required (try `/assign @handle` or `/assign me`)"))
assign e label (c ∷ s) before = do
  user ← target_user e (c ∷ s)
  assign_user e label (c ∷ s) before user

unfoldable pub unassign : Setting → Text → Option Text → Act Session (Unit {0})
unfolding save emit handle_of
unassign e label none = modify (apply label (codes "No one was assigned"))
unassign e label (some id) = do
  prev ← handle_of e id
  save (λ f. record f { assignee_id = none })
  emit e (codes "unassigned")
  modify (apply label (codes "Unassigned @" ++ prev))

unfoldable pub set_estimate : Text → Text → Option ℤ → Act Session (Unit {0})
unfolding save format_duration
set_estimate label arg none =
    modify
      (reject label (codes "“" ++ arg ++ codes "” is not a valid duration (try 2h30m, 1d, 1w)"))
set_estimate label arg (some (negsuc n)) =
    modify
      (reject label (codes "“" ++ arg ++ codes "” is not a valid duration (try 2h30m, 1d, 1w)"))
set_estimate label arg (some (pos n)) = do
  save (λ f. record f { estimate = n })
  modify (apply label (codes "Set time estimate to " ++ format_duration (pos n)))

-- `Math.max(0, spent + delta)`
abbrev pub add_spent : ℕ → ℤ → ℕ
add_spent spent (pos n) = spent + n
add_spent spent (negsuc n) = spent - suc n

abbrev spent_summary : ℤ → ℕ → Text
unfolding format_duration
spent_summary (pos n) next =
    codes "Added "
    ++ format_duration (pos n)
    ++ codes " of spent time (total "
    ++ format_duration (pos next)
    ++ codes ")"
spent_summary (negsuc n) next =
    codes "Subtracted "
    ++ format_duration (pos (suc n))
    ++ codes " of spent time (total "
    ++ format_duration (pos next)
    ++ codes ")"

unfoldable pub spend : Text → Text → Option ℤ → Fields → Act Session (Unit {0})
unfolding save spent_summary
spend label arg none before =
    modify (reject label (codes "“" ++ arg ++ codes "” is not a valid duration (try 30m, 2h, -1h)"))
spend label arg (some delta) before = do
  save (λ f. record f { spent = add_spent before.spent delta })
  modify (apply label (spent_summary delta (add_spent before.spent delta)))

unfoldable pub remove_estimate : Text → ℕ → Act Session (Unit {0})
unfolding save
remove_estimate label zero = modify (apply label (codes "There was no estimate to remove"))
remove_estimate label (suc n) = do
  save (λ f. record f { estimate = 0 })
  modify (apply label (codes "Removed the time estimate"))

unfoldable pub remove_spent : Text → ℕ → Act Session (Unit {0})
unfolding save
remove_spent label zero = modify (apply label (codes "There was no spent time to remove"))
remove_spent label (suc n) = do
  save (λ f. record f { spent = 0 })
  modify (apply label (codes "Removed all spent time"))
