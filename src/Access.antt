-- ===== src/Access.antt =====
-- apps/api/src/repo-access.ts: who may read, write and administer a repository.
pub mod Grants
pub mod Order
pub mod Tests
use forge_hub.Base.{
  Bool, List, Option, Text, [], any, codes, false, get_or, if◌then◌else◌, is_empty, none, not, some,
  true, ℕ, ◌&&◌, ◌===◌, ◌∷◌, text-Eq,
}

pub data Visibility : Type 0 where
  public private : Visibility

pub data CollaboratorRole : Type 0 where
  reader writer : CollaboratorRole

pub record Collaborator : Type 0 where
  pub user_id : Text
  pub role : CollaboratorRole

-- An org membership; its role is a string of the database.
pub record Membership : Type 0 where
  pub user_id : Text
  pub role : Text

-- `{ role, team: { memberships: [{ userId }] } }`
pub record TeamAccess : Type 0 where
  pub role : Text
  pub members : List Text

-- Dates are numbers of milliseconds; an absent and a null field are both `none`.
pub record RepoAccessInput : Type 0 where
  pub visibility : Visibility
  pub owner_id : Text
  pub archived_at : Option ℕ
  pub collaborators : List Collaborator
  pub org_id : Option Text
  pub org : Option (List Membership)
  pub team_access : Option (List TeamAccess)

abbrev pub is_public : Visibility → Bool
is_public public = true
is_public private = false

abbrev pub is_writer_role : CollaboratorRole → Bool
is_writer_role reader = false
is_writer_role writer = true

abbrev pub is_some {ℓ} : {A : Type ℓ} → Option A → Bool
is_some none = false
is_some (some a) = true

unfoldable pub is_org_owner : RepoAccessInput → Text → Bool
is_org_owner repo user_id =
    any (λ m. m.user_id === user_id && m.role === codes "OWNER") (get_or repo.org [])

-- The loop of `teamRoleFor`, over the grants that are left.
unfoldable pub team_role_from :
    Option CollaboratorRole → List TeamAccess → Text → Option CollaboratorRole
team_role_from role [] user_id = role
team_role_from role (access ∷ rest) user_id =
    let skip = team_role_from role rest user_id in
    let as_reader = team_role_from (some reader) rest user_id in
    if not (any (λ m. m === user_id) access.members)
    then skip
    else if access.role === codes "WRITER"
    then some writer
    else as_reader

unfoldable pub team_role_for : RepoAccessInput → Text → Option CollaboratorRole
team_role_for repo user_id = team_role_from none (get_or repo.team_access []) user_id

abbrev pub is_team_writer : Option CollaboratorRole → Bool
is_team_writer none = false
is_team_writer (some role) = is_writer_role role

-- `userId` is `none` where it is undefined; the empty string is falsy too.
unfoldable pub can_read : RepoAccessInput → Option Text → Bool
can_read repo none = is_public repo.visibility
can_read repo (some user_id) =
    if is_public repo.visibility
    then true
    else if is_empty user_id
    then false
    else if repo.owner_id === user_id
    then true
    else if any (λ c. c.user_id === user_id) repo.collaborators
    then true
    else if is_org_owner repo user_id
    then true
    else if is_some (team_role_for repo user_id)
    then true
    else false

unfoldable pub can_write : RepoAccessInput → Option Text → Bool
can_write repo none = false
can_write repo (some user_id) =
    if is_empty user_id
    then false
    else if is_some repo.archived_at
    then false
    else if repo.owner_id === user_id
    then true
    else if any (λ c. c.user_id === user_id && is_writer_role c.role) repo.collaborators
    then true
    else if is_org_owner repo user_id
    then true
    else if is_team_writer (team_role_for repo user_id)
    then true
    else false

-- `!repo.orgId`
abbrev pub is_personal : Option Text → Bool
is_personal none = true
is_personal (some id) = is_empty id

unfoldable pub can_admin : RepoAccessInput → Option Text → Bool
unfolding is_org_owner
can_admin repo none = false
can_admin repo (some user_id) =
    if is_empty user_id
    then false
    else if is_personal repo.org_id
    then repo.owner_id === user_id
    else any (λ m. m.user_id === user_id && m.role === codes "OWNER") (get_or repo.org [])

pub data ViewerPermission : Type 0 where
  admin write read : ViewerPermission

unfoldable pub viewer_permission : RepoAccessInput → Option Text → Option ViewerPermission
viewer_permission repo user_id =
    if can_admin repo user_id
    then some admin
    else if can_write repo user_id
    then some write
    else if can_read repo user_id
    then some read
    else none
