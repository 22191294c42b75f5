-- ===== src/Services/Users/Creation.antt =====
-- Creating a user in the PostgreSQL repository.
use nexustal.Storage.{exec, Tables}
use nexustal.Storage.Columns.{characters}
use nexustal.Storage.Users.Laws.{fitted_user-short}
use nexustal.Storage.Users.{
  user_repository, Collation, insert_user, create_user, or_fresh, is_taken, find_user_by_username,
}
use nexustal.Services.Users.{failure, create_user_checked}
use nexustal.Domain.Identity.{Timestamp, User, Uuid}
use nexustal.Common.{
  ◌≤◌, ◌≡◌, refl, true, false, none, some, List, [], ◌∷◌, ◌++◌, arith, Text, lit, ◌==◌, is_empty,
  eq_refl, find_if, any,
}

not_taken :
    (user : User) (us : List User)
    → any (λ u. u.id == user.id) us ≡ false
    → find_if (λ u. u.username == user.username) us ≡ none
    → is_taken user us ≡ false
not_taken user [] known named = refl
not_taken user (u ∷ us) known named = ground (arith, not_taken user us)

find_if-last :
    (name : Text) (user : User) (us : List User)
    → find_if (λ u. u.username == name) us ≡ none
    → (user.username == name) ≡ true
    → find_if (λ u. u.username == name) (us ++ user ∷ []) ≡ some user
find_if-last name user [] none_named same = ground arith
find_if-last name user (u ∷ us) none_named same = ground (arith, find_if-last name user us)

-- The user as it will be read back.
abbrev pub recorded : (fresh_version : Uuid) → Timestamp → User → User
recorded fresh_version now user = record user {
  token_version = or_fresh fresh_version user.token_version;
  created_at = now;
}

abbrev with_user : User → Tables → Tables
with_user user t = record t { users = t.users ++ user ∷ [] }

-- While the server answers, a user with a new identifier, a new name of at most 120 characters and
-- a password hash of at most 255 is created: the result gives the identifier, the user is found by name as it was given, with the
-- server's time and a token version, and no second user is created under that name.
pub create_user_checked-found :
    (collation : Collation) (fresh_id fresh_version : Uuid) (user other : User) (t : Tables)
    → is_empty user.id ≡ false
    → is_empty user.username ≡ false
    → is_empty user.password_hash ≡ false
    → characters user.username ≤ 120
    → characters user.password_hash ≤ 255
    → any (λ u. u.id == user.id) t.users ≡ false
    → find_if (λ u. u.username == user.username) t.users ≡ none
    → other.username ≡ user.username
    → is_empty other.password_hash ≡ false
    → (t' : Tables) × (create_user_checked
          (user_repository collation fresh_id fresh_version)
          user
          (record { tables = t; outages = [] })
        ≡ (
          some (record { success = true; message = lit "user created"; created_user_id = user.id }),
          record { tables = t'; outages = [] },
        ))
      × ((find_user_by_username user.username (record { tables = t'; outages = [] })).0
          ≡ some (recorded fresh_version t.now user))
      × (create_user_checked
            (user_repository collation fresh_id fresh_version)
            other
            (record { tables = t'; outages = [] })
          ≡ (some (failure (lit "username already exists")), record { tables = t'; outages = [] }))
unfolding create_user_checked find_user_by_username create_user insert_user exec
create_user_checked-found collation fresh_id fresh_version user other t known named hashed short
      hash_short new unused same other_hashed =
    let stored = recorded fresh_version t.now user in
    let found = find_if-last user.username stored t.users unused (eq_refl user.username) in
    let free = not_taken user t.users new unused in
    let fits =
      fitted_user-short (record user { token_version = or_fresh fresh_version user.token_version })
        short hash_short in
    (
      with_user stored t,
      ground (arith, known, named, hashed, unused, free, fits),
      ground (arith, found),
      ground (arith, found, same, named, other_hashed),
    )
