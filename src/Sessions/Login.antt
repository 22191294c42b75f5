-- ===== src/Sessions/Login.antt =====
-- Logging in and out, through backend/application/auth_service.cpp and the token service.
use nexustal.Services.Auth.{logout, login, login_as}
use nexustal.Domain.Identity.{User, Timestamp, Uuid}
use nexustal.Domain.Ports.{PasswordHasher}
use nexustal.Sessions.Revocation.{
  rotate_version-revokes, validate_access_token-stored, Coherent, Versions,
}
use nexustal.Sessions.Tokens.{
  forget, token_service, payload_for, issuer_name, Payload, remember, JwtLib, create_tokens,
  JwtTokenService,
}
use nexustal.Sessions.Tokens.{validate_access_token}
use nexustal.Common.{
  ◌≤◌, none, ◌≢◌, false, is_empty, ◌+◌, ◌<◌, ◌≡◌, refl, true, some, arith, Text, lit, eq_refl,
}

module _ {S : Type 0} {service : JwtTokenService S} (versions : Versions S service) where
  open versions use {stored, held}

  -- Writing the stored version of a user to the cache keeps the cache coherent.
  remember-Coherent :
      (id version : Uuid) (w : S)
      → Coherent versions w
      → stored w id ≡ some version
      → Coherent versions (remember service.cache id version w).1
  unfolding Coherent
  remember-Coherent id version w c h j v e =
      ground (arith, versions.remember_held id version w j, c j v)

  create_tokens-signed :
      (lib : JwtLib) (jti : Uuid) (now : Timestamp) (user : User) (w : S)
      → service.jwt ≡ some lib
      → create_tokens service jti now user w ≡ (
        some (lib.sign service.secret (payload_for jti now user)),
        (remember service.cache user.id user.token_version w).1,
      )
  unfolding create_tokens
  create_tokens-signed lib jti now user w e = ground (arith, e)

module _ {S : Type 0} (service : JwtTokenService S) (versions : Versions S service) (lib : JwtLib)
    (hasher : PasswordHasher) (jti fresh : Uuid) (now : Timestamp)
    (present : service.jwt ≡ some lib)
    (genuine : (p : Payload) (later : Timestamp)
      → p.issuer ≡ issuer_name
      → p.issued_at ≤ later
      → later < p.expires_at
      → lib.verify service.secret issuer_name later (lib.sign service.secret p) ≡ some p)
    (username password : Text) (user : User) (w : S) where
  open versions use {stored, held}

  -- An active user who gives the right password is logged in, and in the state that the login
  -- leaves the token is accepted as the user's at any time from the login on and before fifteen
  -- minutes have passed. The repository answers and stores the version that was read, the cache is
  -- coherent where the user has been read, and the library accepts the tokens that it has signed,
  -- from the time they were issued until they expire.
  pub login-accepted :
      (later : Timestamp)
      → now ≤ later
      → later < now + 900
      → (service.users.find_by_username username w).0 ≡ some user
      → Coherent versions (service.users.find_by_username username w).1
      → stored (service.users.find_by_username username w).1 user.id ≡ some user.token_version
      → user.is_active ≡ true
      → hasher.verify password user.password_hash ≡ true
      → let token = lib.sign service.secret (payload_for jti now user) in
        let (result, after) =
          login service.users hasher (token_service service jti fresh now) username password w in
        (result
          ≡ some (record {
            success = true;
            message = lit "authenticated";
            access_token = token;
            user_id = user.id;
          }))
        × ((validate_access_token service later token after).0
            ≡ some (record { user_id = user.id; token_version = user.token_version }))
  unfolding login login_as
  login-accepted later since lt found c current active right =
      let reading : S = (service.users.find_by_username username w).1 in
      let payload = payload_for jti now user in
      let after : S = (remember service.cache user.id user.token_version reading).1 in
      let tokens = create_tokens-signed versions lib jti now user reading present in
      (
        ground (arith, found, active, right, tokens),
        ground (
          arith,
          found,
          active,
          right,
          tokens,
          validate_access_token-stored versions later (lib.sign service.secret payload) payload
              after (remember-Coherent versions user.id user.token_version reading c current)
              (rw present (genuine payload later refl since lt)),
          versions.remember_held user.id user.token_version reading user.id,
          eq_refl user.token_version,
        ),
      )

  -- A logout that stores a new version revokes the token of the login before it: where the
  -- repository then finds the user and stores the new version, the logout succeeds, and in the
  -- state that it leaves the token is not accepted, at any time before it would expire. The user is
  -- active and gives the right password, the repository answers, the deletion of the cached
  -- version takes effect, and the library accepts the tokens that it has signed, from the time
  -- they were issued until they expire.
  pub logout-revokes :
      (read : User) (later : Timestamp)
      → now ≤ later
      → later < now + 900
      → (service.users.find_by_username username w).0 ≡ some user
      → is_empty user.id ≡ false
      → user.token_version ≢ fresh
      → ((x : S) → held (forget service.cache user.id x).1 user.id ≡ none)
      → let after =
          (remember service.cache user.id user.token_version
            (service.users.find_by_username username w).1).1 in
        (service.users.find_by_id user.id after).0 ≡ some read
        → (service.users.update
            (record read { token_version = fresh })
            (service.users.find_by_id user.id after).1).0
          ≡ true
        → user.is_active ≡ true
        → hasher.verify password user.password_hash ≡ true
        → let logged =
            (login service.users hasher
              (token_service service jti fresh now)
              username
              password
              w).1 in
          let (done, out) =
            logout service.users hasher (token_service service jti fresh now) user.id logged in
          (done ≡ true)
          × ((validate_access_token service later
                (lib.sign service.secret (payload_for jti now user))
                out).0
              ≡ none)
  unfolding login login_as logout
  logout-revokes read later since lt found named old deleted again renewed active right =
      let reading : S = (service.users.find_by_username username w).1 in
      let payload = payload_for jti now user in
      let after : S = (remember service.cache user.id user.token_version reading).1 in
      let tokens = create_tokens-signed versions lib jti now user reading present in
      (
        ground (arith, named),
        ground (
          arith,
          found,
          active,
          right,
          tokens,
          named,
          rotate_version-revokes versions fresh user.id after read later
              (lib.sign service.secret payload) payload deleted again renewed
              (rw present (genuine payload later refl since lt)) refl old,
        ),
      )
