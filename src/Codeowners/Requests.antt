-- ===== src/Codeowners/Requests.antt =====
-- apps/api/src/codeowners-service.ts: review requests for the owners of the files that a pull request
-- changes. The tables that it only reads, and git, are the Setting; calls of the database may throw.
pub mod Additions
pub mod Automatic
pub mod Safety
use forge_hub.Base.{
  Act, Bool, List, Option, Text, [], add_all, any, catch, false, fetch, filter, if◌then◌else◌,
  includes, is_empty, lookup, map, modify, none, not, pure, some, thrown, true, update, ℕ, ◌&&◌,
  ◌++◌, ◌===◌, ◌>>◌, ◌∷◌, ◌>>=◌, text-Eq,
}
use forge_hub.Regex.{Item}
use forge_hub.Codeowners.{CodeownersRule, parse_codeowners, codeowners_paths, owners_for_paths}

pub record CodeownersRepo : Type 0 where
  pub id : Text
  pub storage_key : Text
  pub owner_id : Text
  pub collaborators : List Text

pub record CodeownersPull : Type 0 where
  pub id : Text
  pub number : ℕ
  pub title : Text
  pub from_branch : Text
  pub to_branch : Text
  pub author_id : Text

pub record Owner : Type 0 where
  pub id : Text
  pub handle : Text

-- A row of `pullRequestReviewerRequest`.
pub record RequestRow : Type 0 where
  pub pull_request_id : Text
  pub user_id : Text
  pub requested_by_id : Text
  pub fulfilled : Bool
  pub dismissed : Bool
  pub via_codeowners : Bool

-- The rows, the users that `notifyUser` was called for, and the reviewers of the recorded events.
pub record Requests : Type 0 where
  pub rows : List RequestRow
  pub notified : List Text
  pub events : List Text

-- A row of `pullRequest`.
pub record PullRow : Type 0 where
  pub repo_id : Text
  pub is_open : Bool
  pub pull : CodeownersPull

-- `readFileAtBranch`, the paths of `getMergeBaseFileList`, the users, and the compilation of patterns
-- with escapes.
pub record Setting : Type 0 where
  pub read_file : Text → Text → Text → Option Text
  pub changed_files : Text → Text → Text → List Text
  pub users : List Owner
  pub repos : List (Text × CodeownersRepo)
  pub pulls : List PullRow
  pub escaped : Text → Option (List Item)

abbrev pub parsed_or :
    Setting → Act Requests (List CodeownersRule) → Option Text → Act Requests (List CodeownersRule)
parsed_or env rest none = rest
parsed_or env rest (some text) = pure (parse_codeowners env.escaped text)

-- The loop of loadCodeowners over the conventional locations.
unfoldable pub load_from : Setting → Text → Text → List Text → Act Requests (List CodeownersRule)
unfolding parse_codeowners
load_from env storage_key ref [] = pure []
load_from env storage_key ref (path ∷ paths) =
    let rest = load_from env storage_key ref paths in
    do raw ← fetch (λ w. env.read_file storage_key ref path); parsed_or env rest raw

unfoldable pub load_codeowners : Setting → Text → Text → Act Requests (List CodeownersRule)
unfolding load_from
load_codeowners env storage_key ref = load_from env storage_key ref codeowners_paths

abbrev pub is_eligible : CodeownersRepo → CodeownersPull → Text → Owner → Bool
is_eligible repo pr actor_id u =
    not (u.id === pr.author_id)
    && not (u.id === actor_id)
    && includes (repo.owner_id ∷ repo.collaborators) u.id

abbrev pub select_owners :
    Setting → CodeownersRepo → CodeownersPull → Text → List Text → Act Requests (List Owner)
select_owners env repo pr actor_id [] = pure []
select_owners env repo pr actor_id (h ∷ hs) = do
  users ← fetch (λ w. filter (λ (u : Owner). includes (h ∷ hs) u.handle) env.users)
  pure (filter (is_eligible repo pr actor_id) users)

abbrev pub owners_under :
    Setting
    → CodeownersRepo
    → CodeownersPull
    → Text
    → List CodeownersRule
    → Act Requests (List Owner)
owners_under env repo pr actor_id [] = pure []
owners_under env repo pr actor_id (r ∷ rs) = do
  files ← fetch (λ w. env.changed_files repo.storage_key pr.to_branch pr.from_branch)
  select_owners env repo pr actor_id (owners_for_paths (r ∷ rs) files)

unfoldable pub eligible_owners :
    Setting → CodeownersRepo → CodeownersPull → Text → Act Requests (List Owner)
unfolding load_codeowners owners_under
eligible_owners env repo pr actor_id = do
  rules ← load_codeowners env repo.storage_key pr.to_branch
  owners_under env repo pr actor_id rules

-- The unique key of a row.
abbrev pub tracks : Text → Text → RequestRow → Bool
tracks pull_id user_id r = r.pull_request_id === pull_id && r.user_id === user_id

abbrev pub new_row : CodeownersPull → Text → Owner → RequestRow
new_row pr actor_id owner = record {
  pull_request_id = pr.id;
  user_id = owner.id;
  requested_by_id = actor_id;
  fulfilled = false;
  dismissed = false;
  via_codeowners = true;
}

abbrev add_row : RequestRow → Requests → Requests
add_row row w = record w { rows = w.rows ++ row ∷ [] }

-- `create`, which throws also where the unique key is taken.
unfoldable pub create_request : RequestRow → Act Requests (Unit {0})
create_request row faults w =
    if any (tracks row.pull_request_id row.user_id) w.rows
    then thrown faults w
    else update (add_row row) faults w

abbrev pub notify_user : Owner → Requests → Requests
notify_user owner w = record w { notified = w.notified ++ owner.id ∷ [] }

-- `recordEvent`, of the kind `review_requested`
abbrev pub record_event : Owner → Requests → Requests
record_event owner w = record w { events = w.events ++ owner.handle ∷ [] }

unfoldable pub after_create : CodeownersPull → Text → Owner → Act Requests Bool
after_create pr actor_id owner = do
  modify (notify_user owner)
  catch (update (record_event owner)) (pure tt)
  pure true

unfoldable pub try_request : CodeownersPull → Text → Owner → Act Requests Bool
unfolding create_request after_create
try_request pr actor_id owner = do
  created ← catch (create_request (new_row pr actor_id owner) >> pure true) (pure false)
  if created then after_create pr actor_id owner else pure false

-- The body of the loop: whether the owner is newly requested.
unfoldable pub request_owner : CodeownersPull → Text → Owner → Act Requests Bool
unfolding try_request
request_owner pr actor_id owner = do
  existing ← fetch (λ w. any (tracks pr.id owner.id) w.rows)
  if existing then pure false else try_request pr actor_id owner

unfoldable pub request_all :
    CodeownersPull → Text → List Owner → List Text → Act Requests (List Text)
unfolding request_owner
request_all pr actor_id [] requested = pure requested
request_all pr actor_id (owner ∷ owners) requested = do
  newly ← request_owner pr actor_id owner
  request_all pr actor_id owners (if newly then requested ++ owner.handle ∷ [] else requested)

unfoldable pub apply_codeowners_reviewers :
    Setting → CodeownersRepo → CodeownersPull → Text → Act Requests (List Text)
unfolding eligible_owners request_all
apply_codeowners_reviewers env repo pr actor_id = do
  owners ← eligible_owners env repo pr actor_id
  request_all pr actor_id owners []

-- The loop of syncCodeownersReviewersForPush over the open pull requests of the pushed branches.
unfoldable pub sync_pulls :
    Setting → CodeownersRepo → Text → List CodeownersPull → Act Requests (Unit {0})
unfolding apply_codeowners_reviewers
sync_pulls env repo actor_id [] = pure tt
sync_pulls env repo actor_id (pr ∷ prs) =
    apply_codeowners_reviewers env repo pr actor_id >> sync_pulls env repo actor_id prs

abbrev is_pushed : Text → List Text → PullRow → Bool
is_pushed repo_id branches p =
    p.repo_id === repo_id && p.is_open && includes branches p.pull.from_branch

-- A repository without a storage key is one whose key is the empty text.
abbrev sync_repo :
    Setting → Text → Text → List Text → Option CodeownersRepo → Act Requests (Unit {0})
unfolding sync_pulls
sync_repo env repo_id actor_id branches none = pure tt
sync_repo env repo_id actor_id branches (some repo) =
    if is_empty repo.storage_key then pure tt else do
      open_prs ← fetch (λ w. filter (is_pushed repo_id branches) env.pulls)
      sync_pulls env repo actor_id (map (λ (p : PullRow). p.pull) open_prs)

unfoldable pub sync_codeowners_reviewers_for_push :
    Setting → Text → Text → List Text → Act Requests (Unit {0})
unfolding sync_repo lookup
sync_codeowners_reviewers_for_push env repo_id actor_id [] = pure tt
sync_codeowners_reviewers_for_push env repo_id actor_id (b ∷ bs) = do
  repo ← fetch (λ w. lookup repo_id env.repos)
  sync_repo env repo_id actor_id (add_all [] (b ∷ bs)) repo
