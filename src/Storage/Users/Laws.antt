-- ===== src/Storage/Users/Laws.antt =====
-- What creating a user gives back.
use nexustal.Storage.Execution.{exec-Executed}
use nexustal.Storage.{Database, Tables}
use nexustal.Storage.Users.{or_fresh, create_user, insert_user, fitted_user}
use nexustal.Storage.Columns.{characters, varchar, varchar-short}
use nexustal.Domain.Identity.{User, Uuid}
use nexustal.Common.{Option-cases, ◌≤◌, refl, ◌≡◌, inl, inr, false, some, arith, is_empty}

insert_user-id :
    (user : User) (t t' : Tables) (id : Uuid) → insert_user user t ≡ some (id, t') → id ≡ user.id
unfolding insert_user fitted_user
insert_user-id user t t' id e = elim (Option-cases (varchar 120 user.username)) [
  | inl refused ↦ ground (arith, refused, e)
  | inr (name, named) ↦ elim (Option-cases (varchar 255 user.password_hash)) [
    | inl refused ↦ ground (arith, named, refused, e)
    | inr (hash, hashed) ↦ ground (arith, named, hashed, e)
  ]
]

-- A name and a hash that are short enough are stored as they are.
pub fitted_user-short :
    (user : User)
    → characters user.username ≤ 120
    → characters user.password_hash ≤ 255
    → fitted_user user ≡ some user
unfolding fitted_user
fitted_user-short user named hashed =
    rw (varchar-short 120 user.username named, varchar-short 255 user.password_hash hashed) refl

abbrev prepared : (fresh_id fresh_version : Uuid) → User → User
prepared fresh_id fresh_version user = record user {
  id = or_fresh fresh_id user.id;
  token_version = or_fresh fresh_version user.token_version;
}

-- A user that has an identifier is created under no other, so never under the empty one.
pub create_user-id :
    (fresh_id fresh_version : Uuid) (user : User) (db : Database) (id : Uuid)
    → is_empty user.id ≡ false
    → (create_user fresh_id fresh_version user db).0 ≡ some id
    → id ≡ user.id
unfolding create_user
create_user-id fresh_id fresh_version user db id named e =
    elim (exec-Executed (insert_user (prepared fresh_id fresh_version user)) db) [
      | inl (refused, _) ↦ ground arith
      | inr (given, t, stored, found, _) ↦
          ground
            (arith, insert_user-id (prepared fresh_id fresh_version user) db.tables t given stored)
    ]
