-- ===== src/Storage/Members/Laws.antt =====
-- The membership tables as a map from a project and a user to a role.
use nexustal.Domain.Capabilities.Laws.{role_from_string-to_string}
use mathlib.Core.Option
use nexustal.Common.{
  lit, Option-cases, true, ◌≡◌, refl, ◌≢◌, inl, inr, Bool, false, ◌&&◌, Option, none, some, List,
  [], ◌∷◌, arith, if◌then◌else◌, Bool-cases, Text, ◌==◌, eq_iff, find_if, any, All,
}
use nexustal.Domain.Identity.{viewer, frontend_dev, backend_dev, admin, Uuid, UserRole}
use nexustal.Domain.Capabilities.{to_string, role_from_string}
use nexustal.Storage.{allowed_role, has_user, has_team, exec, Tables, ProjectRow, MemberRow}
use nexustal.Storage.Members.{
  insert_project_member, select_role, add_project_member, find_role_for_user, joined, upsert,
}

-- The role column of a team and a user.
unfoldable pub role_in : Uuid → Uuid → List MemberRow → Option Text
role_in team_id user_id ms =
    Option.map (λ m. m.role) (find_if (λ m. m.user_id == user_id && team_id == m.team_id) ms)

-- An upsert is a write to the map from teams and users to roles.
pub role_in-upsert :
    (team_id user_id : Uuid) (row : MemberRow) (ms : List MemberRow)
    → role_in team_id user_id (upsert row ms) ≡ (
        if row.team_id == team_id && row.user_id == user_id
        then some row.role
        else role_in team_id user_id ms)
unfolding role_in upsert
role_in-upsert team_id user_id row [] =
    ground (arith, eq_iff row.team_id team_id, eq_iff team_id row.team_id)
role_in-upsert team_id user_id row (m ∷ ms) = ground (
  arith,
  role_in-upsert team_id user_id row ms,
  eq_iff m.team_id row.team_id,
  eq_iff m.user_id row.user_id,
  eq_iff row.team_id team_id,
  eq_iff row.user_id user_id,
  eq_iff m.user_id user_id,
  eq_iff team_id m.team_id,
  eq_iff team_id row.team_id,
)

-- The primary key of the projects.
abbrev pub Keyed : List ProjectRow → Type 0
Keyed [] = Unit
Keyed (p ∷ ps) = All (λ q. q.id ≢ p.id) ps × Keyed ps

any_of_other :
    (id team_id : Uuid) (ps : List ProjectRow)
    → All (λ q. q.id ≢ id) ps
    → any (λ q. q.id == id && q.team_id == team_id) ps ≡ false
any_of_other id team_id [] h = refl
any_of_other id team_id (q ∷ ps) h = ground (arith, any_of_other id team_id ps h.1, eq_iff q.id id)

abbrev pub has_team_id : Uuid → Option ProjectRow → Bool
has_team_id team_id none = false
has_team_id team_id (some p) = p.team_id == team_id

any_project :
    (id team_id : Uuid) (ps : List ProjectRow)
    → Keyed ps
    → any (λ q. q.id == id && q.team_id == team_id) ps
      ≡ has_team_id team_id (find_if (λ q. q.id == id) ps)
any_project id team_id [] h = refl
any_project id team_id (q ∷ ps) h = elim (Bool-cases (q.id == id)) [
  | inl hit ↦ rw hit (elim (Bool-cases (q.team_id == team_id)) [
    | inl same ↦ rw same refl
    | inr other ↦ rw (other, any_of_other id team_id ps (rw ((eq_iff q.id id).0 hit) at h.0)) refl
  ])
  | inr miss ↦ rw miss (any_project id team_id ps h.1)
]

-- The stored role of a user in the team of a project.
abbrev pub team_role : Uuid → List MemberRow → Option ProjectRow → Option Text
team_role user_id ms none = none
team_role user_id ms (some p) = role_in p.team_id user_id ms

-- The role of a user in a project.
unfoldable pub role_of : Tables → Uuid → Uuid → Option UserRole
role_of t project_id user_id =
    Option.map role_from_string
      (team_role user_id t.members (find_if (λ p. p.id == project_id) t.projects))

joined_role :
    (project_id user_id : Uuid) (t : Tables) (ms : List MemberRow) (o : Option ProjectRow)
    → Keyed t.projects
    → find_if (λ p. p.id == project_id) t.projects ≡ o
    → Option.map (λ m. m.role) (find_if (joined project_id user_id t) ms) ≡ team_role user_id ms o
unfolding role_in
joined_role project_id user_id t [] none k e = refl
joined_role project_id user_id t [] (some p) k e = refl
joined_role project_id user_id t (m ∷ ms) o k e = ground (
  arith,
  any_project project_id m.team_id t.projects k,
  joined_role project_id user_id t ms o k e,
)

-- A read of the role, while the server answers, gives the role of the map and changes nothing.
pub find_role_for_user-role_of :
    (project_id user_id : Uuid) (t : Tables)
    → Keyed t.projects
    → find_role_for_user project_id user_id (record { tables = t; outages = [] })
      ≡ (role_of t project_id user_id, record { tables = t; outages = [] })
unfolding find_role_for_user select_role role_of exec
find_role_for_user-role_of project_id user_id t k =
    rw (joined_role project_id user_id t t.members _ k refl) refl

pub allowed_role-to_string : (r : UserRole) → r ≢ admin → allowed_role (to_string r) ≡ true
unfolding to_string lit ◌==◌
allowed_role-to_string admin h = absurd (h refl)
allowed_role-to_string backend_dev h = refl
allowed_role-to_string frontend_dev h = refl
allowed_role-to_string viewer h = refl

pub allowed_role-admin : allowed_role (to_string admin) ≡ false
unfolding to_string lit ◌==◌
allowed_role-admin = refl

abbrev member_row : Uuid → Uuid → UserRole → MemberRow
member_row team_id user_id role = record {
  team_id = team_id;
  user_id = user_id;
  role = to_string role;
}

abbrev with_member : MemberRow → Tables → Tables
with_member row t = record t { members = upsert row t.members }

-- The role map after a write for a team and a user.
role_of-with_member :
    (team_id user_id : Uuid) (role : UserRole) (t : Tables) (project' user' : Uuid)
    → role_of (with_member (member_row team_id user_id role) t) project' user' ≡ (
        if user_id == user' && has_team_id team_id (find_if (λ q. q.id == project') t.projects)
        then some role
        else role_of t project' user')
unfolding role_of
role_of-with_member team_id user_id role t project' user' =
    elim (Option-cases (find_if (λ q. q.id == project') t.projects)) [
      | inl e ↦ rw e (ground arith)
      | inr (q, e) ↦
          rw (e, role_in-upsert q.team_id user' (member_row team_id user_id role) t.members)
            (ground (
              arith,
              eq_iff team_id q.team_id,
              eq_iff q.team_id team_id,
              role_from_string-to_string role,
            ))
    ]

-- A membership that a project grants, while the server answers, is stored: where the project, its
-- team and the user exist and the role is not the administrator's, the call reports success, the
-- user has the role in every project of that team, and no other role changes.
pub add_project_member-role_of :
    (project_id user_id : Uuid) (role : UserRole) (t : Tables) (p : ProjectRow)
    → find_if (λ q. q.id == project_id) t.projects ≡ some p
    → has_team t p.team_id ≡ true
    → has_user t user_id ≡ true
    → role ≢ admin
    → (t' : Tables) × (add_project_member project_id user_id role
          (record { tables = t; outages = [] })
        ≡ (true, record { tables = t'; outages = [] }))
      × ((project' user' : Uuid)
          → role_of t' project' user' ≡ (
              if user_id == user'
                && has_team_id p.team_id (find_if (λ q. q.id == project') t.projects)
              then some role
              else role_of t project' user'))
unfolding add_project_member insert_project_member exec
add_project_member-role_of project_id user_id role t p found team user other = (
  with_member (member_row p.team_id user_id role) t,
  ground (arith, allowed_role-to_string role other),
  λ project' user'. role_of-with_member p.team_id user_id role t project' user',
)
