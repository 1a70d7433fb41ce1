-- ===== src/Access/Grants.antt =====
-- repo-access.ts: the sources of access, and the tests of the source that look for them.
use forge_hub.Base.{
  Any, Any-map, Bool-cases, In, List, Option, Text, [], any, any_iff, arith, codes, false, get_or,
  includes_iff, inl, inr, none, refl, some, text_eq_iff, true, ◌&&◌, ◌===◌, ◌↔◌, ◌∷◌, ◌≡◌, text-Eq,
}
use forge_hub.Access.{
  TeamAccess, RepoAccessInput, CollaboratorRole, reader, is_some, is_org_owner, team_role_from,
  is_team_writer, writer, Collaborator, is_writer_role,
}

abbrev pub IsOrgOwner : RepoAccessInput → Text → Type 0
IsOrgOwner repo u = Any (λ m. (m.user_id ≡ u) × (m.role ≡ codes "OWNER")) (get_or repo.org [])

abbrev pub IsMember : Text → TeamAccess → Type 0
IsMember u access = In u access.members

abbrev pub IsTeamWriter : Text → TeamAccess → Type 0
IsTeamWriter u access = IsMember u access × (access.role ≡ codes "WRITER")

both_iff : (a b c d : Text) → ((a === b && c === d) ≡ true) ↔ ((a ≡ b) × (c ≡ d))
both_iff a b c d = ground (arith, text_eq_iff a b, text_eq_iff c d)

pub is_org_owner_iff :
    (repo : RepoAccessInput) (u : Text) → (is_org_owner repo u ≡ true) ↔ IsOrgOwner repo u
unfolding is_org_owner
is_org_owner_iff repo u =
    let (to, back) =
      any_iff (λ m. m.user_id === u && m.role === codes "OWNER") (get_or repo.org []) in
    (
      λ h. Any-map _ (λ m. (both_iff m.user_id u m.role (codes "OWNER")).0) (to h),
      λ h. back (Any-map _ (λ m. (both_iff m.user_id u m.role (codes "OWNER")).1) h),
    )

team_role_from-ne-none :
    (role : CollaboratorRole) (grants : List TeamAccess) (u : Text)
    → is_some (team_role_from (some role) grants u) ≡ true
unfolding team_role_from
team_role_from-ne-none role [] u = refl
team_role_from-ne-none role (a ∷ more) u =
    ground (arith, team_role_from-ne-none role more u, team_role_from-ne-none reader more u)

includes-In : (xs : List Text) (u : Text) → (any (λ m. m === u) xs ≡ true) ↔ In u xs
includes-In xs u = includes_iff xs u

pub team_role_from-writer :
    (role : Option CollaboratorRole) (grants : List TeamAccess) (u : Text)
    → is_team_writer role ≡ false
    → (is_team_writer (team_role_from role grants u) ≡ true) ↔ Any (IsTeamWriter u) grants
unfolding team_role_from
team_role_from-writer role [] u h = (λ e. cc, λ e. absurd e)
team_role_from-writer role (a ∷ more) u h = elim (Bool-cases (any (λ m. m === u) a.members)) [
  | inr e ↦ rw e (
    λ w. inr ((team_role_from-writer role more u h).0 w),
    elim [
      | inl g ↦ cc ((includes-In a.members u).1 g.0)
      | inr g ↦ (team_role_from-writer role more u h).1 g
    ],
  )
  | inl e ↦ elim (Bool-cases (a.role === codes "WRITER")) [
    | inl w ↦
        rw (e, w)
          (
            λ _. inl ((includes-In a.members u).0 e, (text_eq_iff a.role (codes "WRITER")).0 w),
            λ _. refl,
          )
    | inr w ↦
        rw (e, w)
          (
            λ k. inr ((team_role_from-writer (some reader) more u refl).0 k),
            elim [
              | inl g ↦ cc ((text_eq_iff a.role (codes "WRITER")).1 g.1)
              | inr g ↦ (team_role_from-writer (some reader) more u refl).1 g
            ],
          )
  ]
]

pub team_role_from-some :
    (grants : List TeamAccess) (u : Text)
    → (is_some (team_role_from none grants u) ≡ true) ↔ Any (IsMember u) grants
unfolding team_role_from
team_role_from-some [] u = (λ e. cc, λ e. absurd e)
team_role_from-some (a ∷ more) u = elim (Bool-cases (any (λ m. m === u) a.members)) [
  | inr e ↦ rw e (
    λ w. inr ((team_role_from-some more u).0 w),
    elim [ inl g ↦ cc ((includes-In a.members u).1 g) | inr g ↦ (team_role_from-some more u).1 g ],
  )
  | inl e ↦ rw e (
    λ _. inl ((includes-In a.members u).0 e),
    λ _. elim (Bool-cases (a.role === codes "WRITER")) [
      | inl w ↦ rw w refl
      | inr w ↦ rw w (team_role_from-ne-none reader more u)
    ],
  )
]

module _ (repo : RepoAccessInput) (u : Text) where
  -- Where a signed-in user's read access may come from.
  pub data ReadGrant : Type 0 where
    owner : repo.owner_id ≡ u → ReadGrant
    collaborator : Any (λ c. c.user_id ≡ u) repo.collaborators → ReadGrant
    org_owner : IsOrgOwner repo u → ReadGrant
    team : Any (IsMember u) (get_or repo.team_access []) → ReadGrant

  pub data WriteGrant : Type 0 where
    owner : repo.owner_id ≡ u → WriteGrant
    collaborator : Any (λ c. (c.user_id ≡ u) × (c.role ≡ writer)) repo.collaborators → WriteGrant
    org_owner : IsOrgOwner repo u → WriteGrant
    team : Any (IsTeamWriter u) (get_or repo.team_access []) → WriteGrant

  pub collaborator_iff :
      (any (λ c. c.user_id === u) repo.collaborators ≡ true)
      ↔ Any (λ c. c.user_id ≡ u) repo.collaborators
  collaborator_iff =
      let (to, back) = any_iff (λ c. c.user_id === u) repo.collaborators in
      (
        λ h. Any-map _ (λ c. (text_eq_iff c.user_id u).0) (to h),
        λ h. back (Any-map _ (λ c. (text_eq_iff c.user_id u).1) h),
      )

  writer_role_iff :
      (c : Collaborator)
      → ((c.user_id === u && is_writer_role c.role) ≡ true) ↔ ((c.user_id ≡ u) × (c.role ≡ writer))
  writer_role_iff c = ground (arith, text_eq_iff c.user_id u)

  pub writer_collaborator_iff :
      (any (λ c. c.user_id === u && is_writer_role c.role) repo.collaborators ≡ true)
      ↔ Any (λ c. (c.user_id ≡ u) × (c.role ≡ writer)) repo.collaborators
  writer_collaborator_iff =
      let (to, back) = any_iff (λ c. c.user_id === u && is_writer_role c.role) repo.collaborators in
      (
        λ h. Any-map _ (λ c. (writer_role_iff c).0) (to h),
        λ h. back (Any-map _ (λ c. (writer_role_iff c).1) h),
      )
