-- ===== src/Access/Order.antt =====
-- repo-access.ts: what the access checks decide, and how they are ordered.
use forge_hub.Base.{
  Any, Any-map, Bool-cases, Option, Text, [], any, arith, false, get_or, inl, inr, is_empty, none,
  refl, some, text_eq_iff, true, ◌&&◌, ◌===◌, ◌↔◌, ◌≡◌, ◌⊎◌, text-Eq,
}
use forge_hub.Access.{
  RepoAccessInput, is_public, team_role_for, can_read, can_write, can_admin, viewer_permission,
  public, is_some, is_team_writer, is_writer_role, write, is_org_owner, is_personal, admin,
}
use forge_hub.Access.Grants.{
  WriteGrant, ReadGrant, writer_collaborator_iff, IsMember, IsTeamWriter, collaborator_iff,
  is_org_owner_iff, team_role_from-some, team_role_from-writer,
}

public_iff :
    (repo : RepoAccessInput) → (is_public repo.visibility ≡ true) ↔ (repo.visibility ≡ public)
public_iff repo = ground arith

module _ (repo : RepoAccessInput) (u : Text) where
  team_iff : (is_some (team_role_for repo u) ≡ true) ↔ Any (IsMember u) (get_or repo.team_access [])
  unfolding team_role_for
  team_iff = team_role_from-some (get_or repo.team_access []) u

  IsTeamWriter-iff :
      (is_team_writer (team_role_for repo u) ≡ true)
      ↔ Any (IsTeamWriter u) (get_or repo.team_access [])
  unfolding team_role_for
  IsTeamWriter-iff = team_role_from-writer none (get_or repo.team_access []) u refl

  can_read→grant : can_read repo (some u) ≡ true → (repo.visibility ≡ public) ⊎ ReadGrant repo u
  unfolding can_read
  can_read→grant h = elim (Bool-cases (is_public repo.visibility)) [
    | inl p ↦ inl ((public_iff repo).0 p)
    | inr p ↦ inr (elim (Bool-cases (repo.owner_id === u)) [
      | inl o ↦ ReadGrant.owner ((text_eq_iff repo.owner_id u).0 o)
      | inr o ↦ elim (Bool-cases (any (λ c. c.user_id === u) repo.collaborators)) [
        | inl c ↦ ReadGrant.collaborator ((collaborator_iff repo u).0 c)
        | inr c ↦ elim (Bool-cases (is_org_owner repo u)) [
          | inl g ↦ ReadGrant.org_owner ((is_org_owner_iff repo u).0 g)
          | inr g ↦ ReadGrant.team (team_iff.0 (ground arith))
        ]
      ]
    ])
  ]

  grant→can_read : is_empty u ≡ false → ReadGrant repo u → can_read repo (some u) ≡ true
  unfolding can_read
  grant→can_read e (ReadGrant.owner o) = ground (arith, (text_eq_iff repo.owner_id u).1 o)
  grant→can_read e (ReadGrant.collaborator c) = ground (arith, (collaborator_iff repo u).1 c)
  grant→can_read e (ReadGrant.org_owner g) = ground (arith, (is_org_owner_iff repo u).1 g)
  grant→can_read e (ReadGrant.team t) = ground (arith, team_iff.1 t)

  public→can_read : repo.visibility ≡ public → can_read repo (some u) ≡ true
  unfolding can_read
  public→can_read p = ground arith

  -- A signed-in user reads a repository exactly when it is public or one of the four sources of
  -- read access grants it: ownership, a collaborator entry, an OWNER membership of the org, or
  -- membership of a team that has the repository.
  pub can_read_iff :
      is_empty u ≡ false
      → (can_read repo (some u) ≡ true) ↔ ((repo.visibility ≡ public) ⊎ ReadGrant repo u)
  can_read_iff e = (can_read→grant, elim [ inl p ↦ public→can_read p | inr g ↦ grant→can_read e g ])

  can_write→grant :
      can_write repo (some u) ≡ true
      → (is_empty u ≡ false) × (repo.archived_at ≡ none) × WriteGrant repo u
  unfolding can_write
  can_write→grant h = (
    ground arith,
    ground arith,
    elim (Bool-cases (repo.owner_id === u)) [
      | inl o ↦ WriteGrant.owner ((text_eq_iff repo.owner_id u).0 o)
      | inr o ↦
          elim (Bool-cases
            (any (λ c. c.user_id === u && is_writer_role c.role) repo.collaborators)) [
              | inl c ↦ WriteGrant.collaborator ((writer_collaborator_iff repo u).0 c)
              | inr c ↦ elim (Bool-cases (is_org_owner repo u)) [
                | inl g ↦ WriteGrant.org_owner ((is_org_owner_iff repo u).0 g)
                | inr g ↦ WriteGrant.team (IsTeamWriter-iff.0 (ground arith))
              ]
            ]
    ],
  )

  grant→can_write :
      is_empty u ≡ false
      → repo.archived_at ≡ none
      → WriteGrant repo u
      → can_write repo (some u) ≡ true
  unfolding can_write
  grant→can_write e a (WriteGrant.owner o) = ground (arith, (text_eq_iff repo.owner_id u).1 o)
  grant→can_write e a (WriteGrant.collaborator c) =
      ground (arith, (writer_collaborator_iff repo u).1 c)
  grant→can_write e a (WriteGrant.org_owner g) = ground (arith, (is_org_owner_iff repo u).1 g)
  grant→can_write e a (WriteGrant.team t) = ground (arith, IsTeamWriter-iff.1 t)

  -- A user writes to a repository exactly when they are signed in, it is not archived, and they own
  -- it, are a WRITER collaborator, an OWNER of its org, or in a team that has it as WRITER.
  pub can_write_iff :
      (can_write repo (some u) ≡ true)
      ↔ ((is_empty u ≡ false) × (repo.archived_at ≡ none) × WriteGrant repo u)
  can_write_iff = (can_write→grant, λ h. grant→can_write h.0 h.1 h.2)

WriteGrant→ReadGrant : {repo : RepoAccessInput} {u : Text} → WriteGrant repo u → ReadGrant repo u
WriteGrant→ReadGrant (WriteGrant.owner o) = ReadGrant.owner o
WriteGrant→ReadGrant (WriteGrant.collaborator c) = ReadGrant.collaborator (Any-map _ (λ x h. h.0) c)
WriteGrant→ReadGrant (WriteGrant.org_owner g) = ReadGrant.org_owner g
WriteGrant→ReadGrant (WriteGrant.team t) = ReadGrant.team (Any-map _ (λ x h. h.0) t)

-- Whoever may write to a repository may read it.
pub can_write-can_read :
    (repo : RepoAccessInput) (viewer : Option Text)
    → can_write repo viewer ≡ true
    → can_read repo viewer ≡ true
can_write-can_read repo none h = unfold can_write in cc h
can_write-can_read repo (some u) h =
    let (e, _, g) = (can_write_iff repo u).0 h in grant→can_read repo u e (WriteGrant→ReadGrant g)

can_admin→grant :
    (repo : RepoAccessInput) (u : Text)
    → can_admin repo (some u) ≡ true
    → (is_empty u ≡ false) × ReadGrant repo u
unfolding can_admin
can_admin→grant repo u h = (
  ground arith,
  elim (Bool-cases (is_personal repo.org_id)) [
    | inl p ↦ ReadGrant.owner ((text_eq_iff repo.owner_id u).0 (ground arith))
    | inr p ↦
        ReadGrant.org_owner ((is_org_owner_iff repo u).0 (unfold is_org_owner in ground arith))
  ],
)

-- Whoever administers a repository may read it, archived or not.
pub can_admin-can_read :
    (repo : RepoAccessInput) (viewer : Option Text)
    → can_admin repo viewer ≡ true
    → can_read repo viewer ≡ true
can_admin-can_read repo none h = unfold can_admin in cc h
can_admin-can_read repo (some u) h =
    let (e, g) = can_admin→grant repo u h in grant→can_read repo u e g

archived-can_write :
    (repo : RepoAccessInput) (viewer : Option Text)
    → can_write repo viewer ≡ true
    → repo.archived_at ≡ none
archived-can_write repo none h = unfold can_write in cc h
archived-can_write repo (some u) h = ((can_write_iff repo u).0 h).1

-- The viewer has no permission exactly when they may not read. `admin` is reported exactly for those
-- who administer the repository, and `write` exactly for those who may write to it and do not
-- administer it, which no one does while it is archived.
pub viewer_permission_iff :
    (repo : RepoAccessInput) (viewer : Option Text)
    → ((viewer_permission repo viewer ≡ none) ↔ (can_read repo viewer ≡ false))
      × ((viewer_permission repo viewer ≡ some admin) ↔ (can_admin repo viewer ≡ true))
      × ((viewer_permission repo viewer ≡ some write)
          ↔ ((can_write repo viewer ≡ true) × (can_admin repo viewer ≡ false)))
      × (viewer_permission repo viewer ≡ some write → repo.archived_at ≡ none)
unfolding viewer_permission
viewer_permission_iff repo viewer = ground (
  arith,
  can_write-can_read repo viewer,
  can_admin-can_read repo viewer,
  archived-can_write repo viewer,
)
