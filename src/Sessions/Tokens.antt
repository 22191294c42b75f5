-- ===== src/Sessions/Tokens.antt =====
-- backend/infrastructure/adapters/jwt_token_service.cpp. The library jwt-cpp is a parameter, and
-- nothing stands for it in a build without it.
use nexustal.Common.{
  ℕ, ◌+◌, true, false, Option, none, some, ◌++◌, if◌then◌else◌, Text, lit, ◌==◌, Action, ◌>>=◌,
  ◌>>◌, pure,
}
use nexustal.Domain.Identity.{Uuid, Timestamp, User}
use nexustal.Domain.Ports.{UserRepository, Cache, TokenClaims, TokenService}

-- What a token says.
pub record Payload : Type 0 where
  pub issuer : Text
  pub subject : Uuid
  pub version : Uuid
  pub jti : Uuid
  pub issued_at : Timestamp
  pub expires_at : Timestamp

-- `verify` checks the signature under the secret, the issuer and the time, and decodes; nothing
-- stands for an exception.
pub record JwtLib : Type 0 where
  pub sign : Text → Payload → Text
  pub verify : Text → Text → Timestamp → Text → Option Payload

abbrev pub issuer_name : Text
issuer_name = lit "nexustal"

abbrev pub access_token_ttl_seconds : ℕ
access_token_ttl_seconds = 900

abbrev pub cache_ttl_seconds : ℕ
cache_ttl_seconds = 3600

unfoldable pub cache_key_for : Uuid → Text
cache_key_for user_id = lit "user_token_version:" ++ user_id

pub record JwtTokenService (S : Type 0) : Type 0 where
  pub jwt : Option JwtLib
  pub secret : Text
  pub cache : Option (Cache S)
  pub users : UserRepository S

abbrev pub remember :
    {S : Type 0} → Option (Cache S) → (user_id version : Uuid) → Action S (Unit {0})
remember none user_id version = pure tt
remember (some cache) user_id version =
    cache.setex (cache_key_for user_id) cache_ttl_seconds version

abbrev pub forget : {S : Type 0} → Option (Cache S) → Uuid → Action S (Unit {0})
forget none user_id = pure tt
forget (some cache) user_id = cache.delete (cache_key_for user_id)

abbrev pub cached_version : {S : Type 0} → Option (Cache S) → Uuid → Action S (Option Uuid)
cached_version none user_id = pure none
cached_version (some cache) user_id = cache.read (cache_key_for user_id)

abbrev pub payload_for : (jti : Uuid) → Timestamp → User → Payload
payload_for jti now user = record {
  issuer = issuer_name;
  subject = user.id;
  version = user.token_version;
  jti = jti;
  issued_at = now;
  expires_at = now + access_token_ttl_seconds;
}

abbrev pub claims_if_current : Payload → Option Uuid → Option TokenClaims
claims_if_current payload none = none
claims_if_current payload (some current) =
    if current == payload.version
    then some (record { user_id = payload.subject; token_version = payload.version })
    else none

abbrev pub verified : Option JwtLib → Text → Timestamp → Text → Option Payload
verified none secret now token = none
verified (some lib) secret now token = lib.verify secret issuer_name now token

module _ {S : Type 0} (service : JwtTokenService S) where
  open service use {jwt, secret, cache, users}

  -- Times are whole seconds, as the claims hold them.
  unfoldable pub create_tokens : (jti : Uuid) → Timestamp → User → Action S (Option Text)
  create_tokens jti now user = elim jwt [
    | none ↦ pure none
    | some lib ↦ do
      remember cache user.id user.token_version
      pure (some (lib.sign secret (payload_for jti now user)))
  ]

  unfoldable pub fetch_current_version : Uuid → Action S (Option Uuid)
  fetch_current_version user_id = do
    cached ← cached_version cache user_id
    elim cached [
      | some version ↦ pure (some version)
      | none ↦ do
        found ← users.find_by_id user_id
        elim found [
          | none ↦ pure none
          | some user ↦ do remember cache user_id user.token_version; pure (some user.token_version)
        ]
    ]

  unfoldable pub validate_access_token : Timestamp → Text → Action S (Option TokenClaims)
  unfolding fetch_current_version
  validate_access_token now token = elim (verified jwt secret now token) [
    | none ↦ pure none
    | some payload ↦ do
      current ← fetch_current_version payload.subject
      pure (claims_if_current payload current)
  ]

  unfoldable pub rotate_version : (fresh : Uuid) → Uuid → Action S (Unit {0})
  rotate_version fresh user_id = do
    found ← users.find_by_id user_id
    elim found [
      | none ↦ pure tt
      | some user ↦ do
        updated ← users.update (record user { token_version = fresh })
        elim updated [ false ↦ pure tt | true ↦ forget cache user_id ]
    ]

  -- The service at one moment, with the identifiers that it draws.
  abbrev pub token_service : (jti fresh : Uuid) → Timestamp → TokenService S
  token_service jti fresh now = record {
    create_tokens = create_tokens jti now;
    validate_access_token = validate_access_token now;
    rotate_version = rotate_version fresh;
  }
