-- ===== src/QuickActions/Session.antt =====
-- quick-actions.ts: what the application of commands reads and writes.
use forge_hub.Base.{
  Act, Bool, List, Option, Text, [], any, codes, false, fetch, get_or, handle, if◌then◌else◌,
  lookup, modify, pure, true, update, ℕ, ◌&&◌, ◌++◌, ◌===◌, ◌||◌, ◌∷◌, ◌>>=◌, ◌>>◌, text-Eq,
}

pub data TicketState : Type 0 where
  open_state closed_state merged_state : TicketState

abbrev pub same_state : TicketState → TicketState → Bool
same_state open_state open_state = true
same_state closed_state closed_state = true
same_state merged_state merged_state = true
same_state open_state closed_state = false
same_state open_state merged_state = false
same_state closed_state open_state = false
same_state closed_state merged_state = false
same_state merged_state open_state = false
same_state merged_state closed_state = false

-- The fields of an issue that commands change: those of its row, and the working copy.
pub record Fields : Type 0 where
  pub state : TicketState
  pub assignee_id : Option Text
  pub title : Text
  pub estimate : ℕ
  pub spent : ℕ
  pub milestone_id : Option Text

pub record RepoLabel : Type 0 where
  pub id : Text
  pub name : Text

pub record RepoMilestone : Type 0 where
  pub id : Text
  pub number : ℕ
  pub title : Text

-- `RepoCtx`
pub record RepoCtx : Type 0 where
  pub owner_id : Text
  -- user id and role
  pub collaborators : List (Text × Text)

-- The actor, the author, and the tables that are only read: users by id with their handles.
pub record Setting : Type 0 where
  pub repo : RepoCtx
  pub actor_id : Text
  pub author_id : Text
  pub users : List (Text × Text)
  pub labels : List RepoLabel
  pub milestones : List RepoMilestone

pub record Session : Type 0 where
  pub row : Fields
  pub work : Fields
  -- the rows of `issueLabel`, and the set loaded from them
  pub label_rows : List Text
  pub loaded : Option (List Text)
  pub labels_loaded : Bool
  pub milestones_loaded : Bool
  pub events : List Text
  pub applied : List (Text × Text)
  pub rejected : List (Text × Text)

abbrev pub apply : Text → Text → Session → Session
apply command summary s = record s { applied = s.applied ++ (command, summary) ∷ [] }

abbrev pub reject : Text → Text → Session → Session
reject command reason s = record s { rejected = s.rejected ++ (command, reason) ∷ [] }

unfoldable pub is_writer : RepoCtx → Text → Bool
is_writer repo user_id =
    if repo.owner_id === user_id
    then true
    else any (λ (c : Text × Text). c.0 === user_id && c.1 === codes "WRITER") repo.collaborators

abbrev pub can_modify : Setting → Bool
can_modify e = e.author_id === e.actor_id || is_writer e.repo e.actor_id

unfoldable pub handle_of : Setting → Text → Act Session Text
unfolding lookup
handle_of e user_id = do
  user ← fetch (λ s. lookup user_id e.users)
  pure (get_or user (codes "ghost"))

-- `emit`, which is `recordEvent`: the actor's handle, and the row.
unfoldable pub emit : Setting → Text → Act Session (Unit {0})
unfolding handle_of
emit e kind = do
  handle ← handle_of e e.actor_id
  update (λ s. record s { events = s.events ++ kind ∷ [] })

-- An update of the issue's row, and the assignment to the working copy after it.
unfoldable pub save : (Fields → Fields) → Act Session (Unit {0})
save f = do update (λ s. record s { row = f s.row }); modify (λ s. record s { work = f s.work })
