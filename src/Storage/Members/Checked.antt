-- ===== src/Storage/Members/Checked.antt =====
-- What the check constraint on the role column means for the roles that the program sees.
use nexustal.Storage.Members.Laws.{allowed_role-admin}
use nexustal.Storage.Execution.{exec-Executed, exec-keeps}
use nexustal.Domain.Capabilities.{to_string, role_from_string}
use mathlib.Core.Option
use nexustal.Common.{
  refl, none, some, [], find_if-All, inr, inl, ◌==◌, ◌⊎◌, find_if, Option-cases, arith, ◌∷◌, true,
  false, ◌≢◌, ◌≡◌, All, ℕ, List, Text,
}
use nexustal.Domain.Identity.{UserRole, admin, Uuid}
use nexustal.Domain.Capabilities.Laws.{role_from_string_iff}
use nexustal.Storage.{allowed_role, Database, MemberRow, Tables}
use nexustal.Storage.Members.{
  joined, insert_project_member, add_project_member, select_role, insert_member, add_team_member,
  find_role_for_user, upsert,
}

abbrev pub IsChecked : List MemberRow → Type 0
IsChecked ms = All (λ m. allowed_role m.role ≡ true) ms

upsert-IsChecked :
    (row : MemberRow) (ms : List MemberRow)
    → allowed_role row.role ≡ true
    → IsChecked ms
    → IsChecked (upsert row ms)
unfolding upsert
upsert-IsChecked row [] ok h = (ok, tt)
upsert-IsChecked row (m ∷ ms) ok h = ground (arith, upsert-IsChecked row ms ok h.1)

insert_member-IsChecked :
    (row : MemberRow) (t : Tables) (n : ℕ) (t' : Tables)
    → IsChecked t.members
    → insert_member row t ≡ some (n, t')
    → IsChecked t'.members
unfolding insert_member
insert_member-IsChecked row t n t' h e = ground (arith, upsert-IsChecked row t.members)

insert_project_member-IsChecked :
    (project_id user_id : Uuid) (role : Text) (t : Tables) (n : ℕ) (t' : Tables)
    → IsChecked t.members
    → insert_project_member project_id user_id role t ≡ some (n, t')
    → IsChecked t'.members
unfolding insert_project_member
insert_project_member-IsChecked project_id user_id role t n t' h e =
    elim (Option-cases (find_if (λ p. p.id == project_id) t.projects)) [
      | inl missing ↦ ground arith
      | inr (p, found) ↦
          insert_member-IsChecked (record { team_id = p.team_id; user_id = user_id; role = role }) t
            n t' h (rw (found, insert_project_member) at e)
    ]

-- Adding a member to a team or through a project keeps the stored roles within the constraint,
-- whether or not the server answers.
pub add_member-IsChecked :
    (id user_id : Uuid) (role : UserRole) (db : Database)
    → IsChecked db.tables.members
    → IsChecked (add_team_member id user_id role db).1.tables.members
      × IsChecked (add_project_member id user_id role db).1.tables.members
unfolding add_team_member add_project_member
add_member-IsChecked id user_id role db h = (
  exec-keeps (λ t. IsChecked t.members)
      (insert_member (record { team_id = id; user_id = user_id; role = to_string role })) db
      (λ n t e. insert_member-IsChecked _ db.tables n t h e) h,
  exec-keeps (λ t. IsChecked t.members) (insert_project_member id user_id (to_string role)) db
      (λ n t e. insert_project_member-IsChecked id user_id _ db.tables n t h e) h,
)

insert_member-admin :
    (id user_id : Uuid) (t : Tables)
    → insert_member (record { team_id = id; user_id = user_id; role = to_string admin }) t ≡ none
unfolding insert_member
insert_member-admin id user_id t = rw allowed_role-admin refl

-- Nothing stored and no rows affected, or a refusal.
insert_project_member-admin :
    (id user_id : Uuid) (t : Tables)
    → (insert_project_member id user_id (to_string admin) t ≡ none)
      ⊎ (insert_project_member id user_id (to_string admin) t ≡ some (0, t))
unfolding insert_project_member
insert_project_member-admin id user_id t =
    elim (Option-cases (find_if (λ p. p.id == id) t.projects)) [
      | inl missing ↦ inr (ground arith)
      | inr (p, found) ↦
          inl (rw (found, insert_project_member) (insert_member-admin p.team_id user_id t))
    ]

-- The administrator's role cannot be granted: whatever the tables hold and whether or not the
-- server answers, adding a member as administrator of a team, or of a project, reports failure
-- and leaves the tables as they were.
pub add_member-admin :
    (id user_id : Uuid) (db : Database)
    → ((add_team_member id user_id admin db).0 ≡ false)
      × ((add_team_member id user_id admin db).1.tables ≡ db.tables)
      × ((add_project_member id user_id admin db).0 ≡ false)
      × ((add_project_member id user_id admin db).1.tables ≡ db.tables)
unfolding add_team_member add_project_member
add_member-admin id user_id db = ground (
  arith,
  exec-Executed (insert_member (record { team_id = id; user_id = user_id; role = to_string admin }))
      db,
  exec-Executed (insert_project_member id user_id (to_string admin)) db,
  insert_member-admin id user_id db.tables,
  insert_project_member-admin id user_id db.tables,
)

select_role-ne-admin :
    (project_id user_id : Uuid) (t : Tables)
    → IsChecked t.members
    → Option.map role_from_string
        (Option.map (λ m. m.role) (find_if (joined project_id user_id t) t.members))
      ≢ some admin
select_role-ne-admin project_id user_id t h e =
    elim (Option-cases (find_if (joined project_id user_id t) t.members)) [
      | inl missing ↦ cc (rw missing at e)
      | inr (m, found) ↦
          let ok : allowed_role m.role ≡ true =
            find_if-All (λ m. allowed_role m.role ≡ true) (joined project_id user_id t) t.members h
              found in
          ground (arith, found, ok, allowed_role-admin, role_from_string_iff m.role admin)
    ]

-- Nor is it ever read: from tables within the constraint no user has the administrator's role in
-- a project, whether or not the server answers.
pub find_role_for_user-ne-admin :
    (project_id user_id : Uuid) (db : Database)
    → IsChecked db.tables.members
    → (find_role_for_user project_id user_id db).0 ≢ some admin
unfolding find_role_for_user select_role
find_role_for_user-ne-admin project_id user_id db h e = ground (
  arith,
  exec-Executed (select_role project_id user_id) db,
  select_role-ne-admin project_id user_id db.tables h,
)
