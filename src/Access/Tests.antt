-- ===== src/Access/Tests.antt =====
-- repo-access.ts at concrete repositories.
use forge_hub.Base.{[], codes, false, is_empty, none, refl, some, true, ◌↔◌, ◌∷◌, ◌≡◌, ◌⊎◌, text-Eq}
use forge_hub.Access.{
  RepoAccessInput, can_read, private, viewer_permission, can_write, can_admin, reader, admin,
  public, is_org_owner, write, read, team_role_for, team_role_from,
}
use forge_hub.Access.Grants.{WriteGrant, ReadGrant}
use forge_hub.Access.Order.{can_read_iff, can_write-can_read, can_write_iff, viewer_permission_iff}

access : Unit {0}
unfolding can_read can_write can_admin viewer_permission is_org_owner team_role_for team_role_from
access = tt

-- A private org repository that `ann` created, with `bob` in a WRITER team and `eve` a READER.
abbrev engine : RepoAccessInput
engine = record {
  visibility = private;
  owner_id = codes "ann";
  archived_at = none;
  collaborators = record { user_id = codes "eve"; role = reader } ∷ [];
  org_id = some (codes "org");
  org = some (record { user_id = codes "zoe"; role = codes "OWNER" } ∷ []);
  team_access = some (record { role = codes "WRITER"; members = codes "bob" ∷ [] } ∷ []);
}

permissions :
    (viewer_permission engine (some (codes "zoe")) ≡ some admin)
    × (viewer_permission engine (some (codes "ann")) ≡ some write)
    × (viewer_permission engine (some (codes "bob")) ≡ some write)
    × (viewer_permission engine (some (codes "eve")) ≡ some read)
    × (viewer_permission engine (some (codes "kim")) ≡ none)
    × (viewer_permission engine none ≡ none)
unfolding access
permissions = (refl, refl, refl, refl, refl, refl)

archived_permissions :
    (viewer_permission (record engine { archived_at = some 7 }) (some (codes "zoe")) ≡ some admin)
    × (viewer_permission (record engine { archived_at = some 7 }) (some (codes "bob")) ≡ some read)
unfolding access
archived_permissions = (refl, refl)

can_read_iff_example :
    (can_read engine (some (codes "eve")) ≡ true)
    ↔ ((engine.visibility ≡ public) ⊎ ReadGrant engine (codes "eve"))
can_read_iff_example = can_read_iff engine (codes "eve") refl

can_write_iff_example : (can_write engine (some (codes "bob")) ≡ true) ↔ (
    (is_empty (codes "bob") ≡ false)
    × (engine.archived_at ≡ none)
    × WriteGrant engine (codes "bob"))
can_write_iff_example = can_write_iff engine (codes "bob")

can_write-can_read_example : can_read engine (some (codes "bob")) ≡ true
unfolding access
can_write-can_read_example = can_write-can_read engine (some (codes "bob")) refl

viewer_permission_iff_example :
    ((viewer_permission engine none ≡ none) ↔ (can_read engine none ≡ false))
    × ((viewer_permission engine none ≡ some admin) ↔ (can_admin engine none ≡ true))
    × ((viewer_permission engine none ≡ some write)
        ↔ ((can_write engine none ≡ true) × (can_admin engine none ≡ false)))
    × (viewer_permission engine none ≡ some write → engine.archived_at ≡ none)
viewer_permission_iff_example = viewer_permission_iff engine none
