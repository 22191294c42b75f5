-- ===== src/Http/Wizard/Laws.antt =====
-- The wizard's route for an administrator.
use nexustal.Domain.Wizard.{AdminCredentials}
use nexustal.Domain.Ports.{PasswordHasher}
use nexustal.Http.{outcome, JsonCpp}
use nexustal.Storage.Details.Laws.{answering}
use nexustal.Storage.{exec, Tables}
use nexustal.Domain.Json.{Json, JsonLib}
use nexustal.Domain.Identity.{Timestamp, Uuid, User}
use nexustal.Http.Wizard.{read_credentials, create_admin_route}
use nexustal.Services.Wizard.{new_admin, WizardService, create_admin}
use nexustal.Storage.Columns.{characters}
use nexustal.Storage.Users.Laws.{fitted_user-short}
use nexustal.Storage.Users.{
  user_repository, is_taken, insert_user, Collation, find_user_by_username, create_user,
}
use nexustal.Common.{
  ◌≤◌, ◌≡◌, refl, Bool, true, false, ◌&&◌, none, some, List, [], ◌∷◌, ◌++◌, arith, Text, ◌==◌,
  is_empty, eq_refl, any-false, any,
}

abbrev joined_by : User → Tables → Tables
joined_by user t = record t { users = t.users ++ record user { created_at = t.now } ∷ [] }

create_user-fresh :
    (user : User) (t : Tables)
    → is_empty user.id ≡ false
    → is_empty user.token_version ≡ false
    → characters user.username ≤ 120
    → characters user.password_hash ≤ 255
    → is_taken user t.users ≡ false
    → create_user [] [] user (answering t) ≡ (some user.id, answering (joined_by user t))
unfolding create_user insert_user exec
create_user-fresh user t drawn versioned short hash_short fresh =
    rw (drawn, versioned, fitted_user-short user short hash_short, fresh) refl

find_user_by_username-none :
    (name : Text) (t : Tables)
    → any (λ u. u.username == name) t.users ≡ false
    → find_user_by_username name (answering t) ≡ (none, answering t)
unfolding find_user_by_username exec
find_user_by_username-none name t h = rw (any-false (λ u. u.username == name) t.users h) refl

is_taken-username :
    (user : User) (us : List User)
    → is_taken user us ≡ false
    → any (λ u. u.username == user.username) us ≡ false
is_taken-username user [] h = refl
is_taken-username user (u ∷ us) h = ground (arith, is_taken-username user us)

any-last :
    {A : Type 0} (p : A → Bool) (y : A) (xs : List A) → p y ≡ true → any p (xs ++ y ∷ []) ≡ true
any-last p y [] h = rw h refl
any-last p y (x ∷ xs) h = ground (arith, any-last p y xs h)

create_admin-open :
    (collation : Collation) (hasher : PasswordHasher) (id version : Uuid) (now : Timestamp)
    (credentials : AdminCredentials) (service : WizardService) (t : Tables)
    → is_empty credentials.username ≡ false
    → is_empty credentials.password ≡ false
    → is_empty id ≡ false
    → is_empty version ≡ false
    → characters credentials.username ≤ 120
    → characters (hasher.hash credentials.password) ≤ 255
    → is_taken (new_admin hasher id version now credentials) t.users ≡ false
    → create_admin
        (user_repository collation [] [])
        hasher
        id
        version
        now
        credentials
        (service, answering t)
      ≡ (
        some true,
        (
          record service { admin_created = true },
          answering (joined_by (new_admin hasher id version now credentials) t),
        ),
      )
unfolding create_admin
create_admin-open collation hasher id version now credentials service t named secret drawn versioned
      short hash_short fresh =
    let user : User = new_admin hasher id version now credentials in
    rw
      (
        named,
        secret,
        find_user_by_username-none credentials.username t (is_taken-username user t.users fresh),
        create_user-fresh user t drawn versioned short hash_short fresh,
        drawn,
      )
      refl

-- Anyone who can reach the wizard's route can create an administrator at any time, also after the
-- wizard is complete: whatever the state of the service, a request without any token that names a
-- new user name and a password is answered with success, and the database then has an active
-- administrator of that name. The server answers, the identifier drawn is new, and the
-- name and the password's hash fit their columns of 120 and 255 characters.
pub create_admin_route-open :
    (lib : JsonLib) (cpp : JsonCpp) (collation : Collation) (hasher : PasswordHasher)
    (id version : Uuid) (now : Timestamp) (credentials : AdminCredentials) (json : Json)
    (service : WizardService) (t : Tables)
    → read_credentials lib cpp json ≡ some credentials
    → is_empty credentials.username ≡ false
    → is_empty credentials.password ≡ false
    → is_empty id ≡ false
    → is_empty version ≡ false
    → characters credentials.username ≤ 120
    → characters (hasher.hash credentials.password) ≤ 255
    → is_taken (new_admin hasher id version now credentials) t.users ≡ false
    → ((create_admin_route lib cpp
          (user_repository collation [] [])
          hasher
          id
          version
          now
          (record { headers = []; json = some json })
          (service, answering t)).0
        ≡ some (outcome lib 400 true))
      × (any
            (λ u. u.username == credentials.username && (u.is_admin && u.is_active))
            (create_admin_route lib cpp
              (user_repository collation [] [])
              hasher
              id
              version
              now
              (record { headers = []; json = some json })
              (service, answering t)).1.1.tables.users
          ≡ true)
unfolding create_admin_route
create_admin_route-open lib cpp collation hasher id version now credentials json service t read
      named secret drawn versioned short hash_short fresh =
    let user : User = new_admin hasher id version now credentials in
    let made =
      create_admin-open collation hasher id version now credentials service t named secret drawn
        versioned short hash_short fresh in
    (
      rw (read, made) refl,
      rw (read, made)
          (any-last (λ u. u.username == credentials.username && (u.is_admin && u.is_active))
            (record user { created_at = t.now }) t.users (rw (eq_refl credentials.username) refl)),
    )
