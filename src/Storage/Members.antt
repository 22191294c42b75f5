-- ===== src/Storage/Members.antt =====
-- Membership: backend/infrastructure/adapters/postgres_team_repository.cpp and
-- postgres_project_repository.cpp.
pub mod Laws
pub mod Checked
use mathlib.Core.Option
use nexustal.Common.{
  ℕ, zero, suc, ◌+◌, ◌-◌, ◌*◌, ◌/◌, ◌%◌, ◌^◌, ◌≤◌, ◌<◌, String, ◌≡◌, refl, sym, ap, ◌∙◌, subst, ◌≢◌,
  ◌↔◌, ◌⊎◌, inl, inr, Bool, true, false, not, ◌&&◌, ◌||◌, Option, none, some, List, [], ◌∷◌, ◌++◌,
  append_assoc, append-nil, arith, ltb, leb, eqb, if◌then◌else◌, Bool-cases, Option-cases, is_some,
  Text, lit, ◌==◌, is_empty, eq_iff, eq_refl, ==-false, length, length-append, find_if, get_elem?,
  modify, update_where, count_if, count_if-pos, find_if-any, find_if-holds, insert_desc, order_desc,
  any-insert_desc, any-order_desc, All-insert_desc, All-order_desc, find_if-All, any, select, All,
  All-select, Dict, lookup, put, without, lookup-put, lookup-without, Action, ◌>>=◌, ◌>>◌, pure,
}
use nexustal.Domain.Identity.{Uuid, UserRole, Team}
use nexustal.Domain.Capabilities.{role_from_string, to_string}
use nexustal.Domain.Ports.{TeamRepository, ProjectRepository}
use nexustal.Storage.{
  Tables, Database, ProjectRow, MemberRow, Statement, exec, allowed_role, has_user, has_team,
  has_project,
}

-- `INSERT … ON CONFLICT (team_id, user_id) DO UPDATE SET role`
unfoldable pub upsert : MemberRow → List MemberRow → List MemberRow
upsert row [] = row ∷ []
upsert row (m ∷ ms) =
    if m.team_id == row.team_id && m.user_id == row.user_id
    then record m { role = row.role } ∷ ms
    else m ∷ upsert row ms

unfoldable pub insert_member : MemberRow → Statement ℕ
insert_member row t =
    if allowed_role row.role && (has_team t row.team_id && has_user t row.user_id)
    then some (1, record t { members = upsert row t.members })
    else none

-- `result.affectedRows() > 0`, and false from the handler of the exception
abbrev pub affected : Option ℕ → Bool
affected none = false
affected (some rows) = ltb 0 rows

unfoldable pub insert_team : Team → Statement Uuid
insert_team team t =
    if not (has_team t team.id) && has_user t team.owner_id
    then some (team.id, record t { teams = t.teams ++ record team { created_at = t.now } ∷ [] })
    else none

-- An empty text from the handler of the exception.
abbrev pub returned : Option Uuid → Uuid
returned none = []
returned (some id) = id

unfoldable pub create_team : Team → Action Database Uuid
create_team team = do result ← exec (insert_team team); pure (returned result)

abbrev first_team : Option (Option Team) → Option Team
first_team none = none
first_team (some row) = row

unfoldable pub find_team_by_id : Uuid → Action Database (Option Team)
find_team_by_id id = do
  result ← exec (λ t. some (find_if (λ r. r.id == id) t.teams, t))
  pure (first_team result)

abbrev all_rows {ℓ} : {A : Type ℓ} → Option (List A) → List A
all_rows none = []
all_rows (some rows) = rows

unfoldable pub find_teams_by_owner : Uuid → Action Database (List Team)
find_teams_by_owner owner_id = do
  result ←
      exec (λ t.
        some (order_desc (λ r. r.created_at) (select (λ r. r.owner_id == owner_id) t.teams), t))
  pure (all_rows result)

unfoldable pub add_team_member : Uuid → Uuid → UserRole → Action Database Bool
unfolding insert_member
add_team_member team_id user_id role = do
  result ←
      exec (insert_member (record { team_id = team_id; user_id = user_id; role = to_string role }))
  pure (affected result)

abbrev pub team_repository : TeamRepository Database
team_repository = record {
  create = create_team;
  find_by_id = find_team_by_id;
  find_by_owner = find_teams_by_owner;
  add_member = add_team_member;
}

-- `INSERT … SELECT team_id, $2, $3 FROM projects WHERE id = $1`
unfoldable pub insert_project_member : Uuid → Uuid → Text → Statement ℕ
unfolding insert_member
insert_project_member project_id user_id role t =
    elim (find_if (λ p. p.id == project_id) t.projects) [
      | none ↦ some (0, t)
      | some p ↦ insert_member (record { team_id = p.team_id; user_id = user_id; role = role }) t
    ]

unfoldable pub add_project_member : Uuid → Uuid → UserRole → Action Database Bool
add_project_member project_id user_id role = do
  result ← exec (insert_project_member project_id user_id (to_string role))
  pure (affected result)

-- The join of `findRoleForUser`; the keys leave one row at most.
abbrev pub joined : Uuid → Uuid → Tables → MemberRow → Bool
joined project_id user_id t m =
    m.user_id == user_id && any (λ p. p.id == project_id && p.team_id == m.team_id) t.projects

unfoldable pub select_role : Uuid → Uuid → Statement (Option Text)
select_role project_id user_id t =
    some (Option.map (λ m. m.role) (find_if (joined project_id user_id t) t.members), t)

abbrev pub read_role : Option (Option Text) → Option UserRole
read_role none = none
read_role (some row) = Option.map role_from_string row

unfoldable pub find_role_for_user : Uuid → Uuid → Action Database (Option UserRole)
find_role_for_user project_id user_id = do
  result ← exec (select_role project_id user_id)
  pure (read_role result)

abbrev pub project_repository : ProjectRepository Database
project_repository = record {
  find_role_for_user = find_role_for_user;
  add_member = add_project_member;
}
