-- ===== src/Storage/Users.antt =====
-- backend/infrastructure/adapters/postgres_user_repository.cpp.
pub mod Laws
use nexustal.Common.{
  ℕ, Bool, false, not, ◌&&◌, ◌||◌, Option, none, some, List, [], ◌∷◌, ◌++◌, ltb, if◌then◌else◌,
  Text, lit, ◌==◌, is_empty, find_if, update_where, count_if, any, select, Action, ◌>>=◌, pure,
}
use nexustal.Domain.Identity.{Uuid, User, UserSearchCriteria}
use nexustal.Domain.Ports.{UserRepository}
use nexustal.Storage.{Database, Statement, exec}
use nexustal.Storage.Columns.{varchar}
use nexustal.Storage.Members.{affected}

abbrev pub first_user : Option (Option User) → Option User
first_user none = none
first_user (some row) = row

unfoldable pub find_user_by_username : Text → Action Database (Option User)
find_user_by_username username = do
  result ← exec (λ t. some (find_if (λ u. u.username == username) t.users, t))
  pure (first_user result)

unfoldable pub find_user_by_id : Uuid → Action Database (Option User)
find_user_by_id id = do
  result ← exec (λ t. some (find_if (λ u. u.id == id) t.users, t))
  pure (first_user result)

-- The server's `ILIKE` and the order of its collation.
pub record Collation : Type 0 where
  pub ilike : Text → Text → Bool
  pub before : Text → Text → Bool

abbrev insert_by : (Text → Text → Bool) → User → List User → List User
insert_by before u [] = u ∷ []
insert_by before u (v ∷ vs) =
    let rest = insert_by before u vs in
    if before u.username v.username then u ∷ v ∷ vs else v ∷ rest

abbrev order_by_username : (Text → Text → Bool) → List User → List User
order_by_username before [] = []
order_by_username before (u ∷ us) = insert_by before u (order_by_username before us)

abbrev is_excluded : Option Uuid → User → Bool
is_excluded none u = false
is_excluded (some id) u = u.id == id

abbrev all_users : Option (List User) → List User
all_users none = []
all_users (some rows) = rows

unfoldable pub search_users : Collation → UserSearchCriteria → Action Database (List User)
search_users collation criteria = do
  result ← exec (λ t. some (
    order_by_username collation.before (
        select
          (λ u.
            collation.ilike u.username (lit "%" ++ (criteria.query ++ lit "%"))
            && not (is_excluded criteria.exclude_user_id u))
          t.users),
    t,
  ))
  pure (all_users result)

abbrev pub or_fresh : Text → Text → Text
or_fresh fresh given = if is_empty given then fresh else given

-- The keys of the table: `id` and `username`.
abbrev pub is_taken : User → List User → Bool
is_taken user us = any (λ u. u.id == user.id || u.username == user.username) us

abbrev with_columns : User → Option Text → Option Text → Option User
with_columns user none hash = none
with_columns user (some name) none = none
with_columns user (some name) (some hash) =
    some (record user { username = name; password_hash = hash })

-- The columns `username varchar(120)` and `password_hash varchar(255)`.
unfoldable pub fitted_user : User → Option User
fitted_user user = with_columns user (varchar 120 user.username) (varchar 255 user.password_hash)

abbrev insert_fitted : Option User → Statement Uuid
insert_fitted none t = none
insert_fitted (some user) t =
    if is_taken user t.users
    then none
    else some (user.id, record t { users = t.users ++ record user { created_at = t.now } ∷ [] })

unfoldable pub insert_user : User → Statement Uuid
unfolding fitted_user
insert_user user = insert_fitted (fitted_user user)

-- The exception of a refused insertion is not caught here.
unfoldable pub create_user : (fresh_id fresh_version : Uuid) → User → Action Database (Option Uuid)
create_user fresh_id fresh_version user = exec (
    insert_user (record user {
      id = or_fresh fresh_id user.id;
      token_version = or_fresh fresh_version user.token_version;
    }))

abbrev pub overwrite : User → User → User
overwrite user u = record u {
  username = user.username;
  password_hash = user.password_hash;
  is_admin = user.is_admin;
  is_active = user.is_active;
  token_version = user.token_version;
}

-- Another user with the new name breaks the key on `username`.
abbrev pub set_fitted : Option User → Statement ℕ
set_fitted none t = none
set_fitted (some user) t =
    let matching = count_if (λ u. u.id == user.id) t.users in
    if ltb 0 matching && any (λ u. u.username == user.username && not (u.id == user.id)) t.users
    then none
    else some (
      matching,
      record t { users = update_where (λ u. u.id == user.id) (overwrite user) t.users },
    )

unfoldable pub set_user : User → Statement ℕ
unfolding fitted_user
set_user user = set_fitted (fitted_user user)

unfoldable pub update_user : User → Action Database Bool
update_user user = do result ← exec (set_user user); pure (affected result)

abbrev pub user_repository : Collation → (fresh_id fresh_version : Uuid) → UserRepository Database
user_repository collation fresh_id fresh_version = record {
  find_by_username = find_user_by_username;
  find_by_id = find_user_by_id;
  search = search_users collation;
  create = create_user fresh_id fresh_version;
  update = update_user;
}
