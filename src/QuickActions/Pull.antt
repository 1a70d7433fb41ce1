-- ===== src/QuickActions/Pull.antt =====
-- quick-actions.ts: the commands on a pull request, applyPullCommands.
use forge_hub.Base.{
  Act, Bool, Keeps, Keeps-at, Keeps-branch, Keeps-catch, Keeps-if, Keeps-modify, List, Ran, Text,
  [], and_then, ap, catch, codes, done, false, fetch, handle, if◌then◌else◌, includes, lookup,
  modify, not, pure, refl, state_after, subst, sym, thrown, true, update, ◌&&◌, ◌++◌, ◌===◌, ◌>>◌,
  ◌||◌, ◌∙◌, ◌∷◌, ◌≡◌, ◌>>=◌, text-Eq,
}
use forge_hub.QuickActions.Session.{
  open_state, closed_state, merged_state, TicketState, Setting, same_state,
}
use forge_hub.QuickActions.{QuickCommand, known_commands}

-- The row's state and the copy of it, with the events and the reports.
pub record PullSession : Type 0 where
  pub row : TicketState
  pub work : TicketState
  pub events : List Text
  pub applied : List (Text × Text)
  pub rejected : List (Text × Text)

abbrev pub say : Text → Text → PullSession → PullSession
say command summary s = record s { applied = s.applied ++ (command, summary) ∷ [] }

abbrev pub refuse : Text → Text → PullSession → PullSession
refuse command reason s = record s { rejected = s.rejected ++ (command, reason) ∷ [] }

abbrev pub can_modify_pull : Setting → Bool
can_modify_pull e = e.author_id === e.actor_id || e.repo.owner_id === e.actor_id

abbrev is_close : Text → Bool
is_close name = name === codes "close"

abbrev target_of : Text → TicketState
target_of name = if is_close name then closed_state else open_state

abbrev target_text : Text → Text
target_text name = if is_close name then codes "closed" else codes "open"

-- The three calls of a change.
unfoldable pub change_pull : Setting → Text → Text → Act PullSession (Unit {0})
unfolding lookup
change_pull e label name = do
  update (λ s. record s { row = target_of name })
  modify (λ s. record s { work = target_of name })
  handle ← fetch (λ s. lookup e.actor_id e.users)
  update (λ s. record s {
    events = s.events ++ (if is_close name then codes "closed" else codes "reopened") ∷ [];
  })
  modify (
      say label (
        if is_close name
        then codes "Closed this pull request"
        else codes "Reopened this pull request"))

-- The body of the loop, on the copy of the state.
unfoldable pub run_pull_command : Setting → Text → Text → TicketState → Act PullSession (Unit {0})
unfolding change_pull
run_pull_command e label name state =
    if not (includes known_commands name)
    then modify (refuse label (codes "Unknown command " ++ label))
    else if not (is_close name) && not (name === codes "reopen")
    then modify (refuse label (label ++ codes " is not available on pull requests"))
    else if not (can_modify_pull e)
    then modify (
        refuse label
          (codes "You need to be the author or repository owner to change a pull request"))
    else if same_state state merged_state
    then modify (refuse label (codes "Cannot change the state of a merged pull request"))
    else if same_state state (target_of name)
    then modify (say label (codes "This pull request is already " ++ target_text name))
    else change_pull e label name

unfoldable pub run_pull_one : Setting → QuickCommand → Act PullSession (Unit {0})
unfolding run_pull_command
run_pull_one e cmd faults s =
    let label = b'/' ∷ cmd.name in
    catch (run_pull_command e label cmd.name s.work)
      (modify (refuse label (codes "Could not apply this command"))) faults s

unfoldable pub apply_pull_commands : Setting → List QuickCommand → Act PullSession (Unit {0})
unfolding run_pull_one
apply_pull_commands e [] = pure tt
apply_pull_commands e (cmd ∷ commands) = run_pull_one e cmd >> apply_pull_commands e commands

-- What a command changes, besides the rejections and the reports.
abbrev pub pull_part : PullSession → TicketState × (TicketState × List Text)
pull_part s = (s.row, (s.work, s.events))

-- A command that is not allowed, or that finds the pull request merged, changes nothing but the
-- reports.
run_pull_command-Keeps :
    (e : Setting) (label name : Text) (state : TicketState)
    → (can_modify_pull e && not (same_state state merged_state)) ≡ false
    → Keeps pull_part (run_pull_command e label name state)
unfolding run_pull_command
run_pull_command-Keeps e label name state h =
    Keeps-if pull_part (not (includes known_commands name)) _ _
      (Keeps-modify pull_part _ (λ s. refl))
      (Keeps-if pull_part (not (is_close name) && not (name === codes "reopen")) _ _
        (Keeps-modify pull_part _ (λ s. refl))
        (Keeps-branch pull_part (not (can_modify_pull e)) _ _
          (λ denied. Keeps-modify pull_part _ (λ s. refl))
          (λ allowed.
            Keeps-branch pull_part (same_state state merged_state) _ _
              (λ merged. Keeps-modify pull_part _ (λ s. refl))
              (λ unmerged. absurd (
                contradiction (can_modify_pull e) (same_state state merged_state) allowed unmerged
                  h)))))
  where
    contradiction : (a b : Bool) → not a ≡ false → b ≡ false → (a && not b) ≡ false → ⊥
    contradiction true true allowed unmerged h = cc
    contradiction true false allowed unmerged h = cc
    contradiction false b allowed unmerged h = cc

run_pull_one-Keeps :
    (e : Setting) (cmd : QuickCommand) (faults : List Bool) (s : PullSession)
    → (can_modify_pull e && not (same_state s.work merged_state)) ≡ false
    → pull_part (state_after (run_pull_one e cmd faults s)) ≡ pull_part s
unfolding run_pull_one
run_pull_one-Keeps e cmd faults s h =
    Keeps-at pull_part _
      (Keeps-catch pull_part (run_pull_command e (b'/' ∷ cmd.name) cmd.name s.work)
        (modify (refuse (b'/' ∷ cmd.name) (codes "Could not apply this command")))
        (run_pull_command-Keeps e (b'/' ∷ cmd.name) cmd.name s.work h)
        (Keeps-modify pull_part _ (λ s. refl)))
      faults s

after-one :
    (r : Ran PullSession (Unit {0})) (k : Act PullSession (Unit {0})) (s : PullSession)
    → pull_part (state_after r) ≡ pull_part s
    → ((fs : List Bool) (t : PullSession)
        → pull_part t ≡ pull_part s
        → pull_part (state_after (k fs t)) ≡ pull_part t)
    → pull_part (state_after (and_then r (λ _. k))) ≡ pull_part s
after-one (thrown fs t) k s same rest = same
after-one (done a fs t) k s same rest = rest fs t same ∙ same

-- Commands on a pull request change neither its state nor its timeline, whichever calls throw, if
-- the user is neither its author nor the repository's owner, or if it is merged.
pub apply_pull_commands-refused :
    (e : Setting) (commands : List QuickCommand) (faults : List Bool) (s : PullSession)
    → (can_modify_pull e && not (same_state s.work merged_state)) ≡ false
    → pull_part (state_after (apply_pull_commands e commands faults s)) ≡ pull_part s
unfolding apply_pull_commands
apply_pull_commands-refused e [] faults s h = refl
apply_pull_commands-refused e (cmd ∷ commands) faults s h =
    after-one (run_pull_one e cmd faults s) (apply_pull_commands e commands) s
      (run_pull_one-Keeps e cmd faults s h)
      (λ fs t same. apply_pull_commands-refused e commands fs t (
        subst (λ w. (can_modify_pull e && not (same_state w merged_state)) ≡ false)
          (sym (ap (λ (p : TicketState × (TicketState × List Text)). p.1.0) same)) h))
