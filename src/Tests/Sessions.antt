-- ===== src/Tests/Sessions.antt =====
-- Sessions over the tables and a cache.
use nexustal.Tests.Data.{user_named, bob, office, plain}
use nexustal.Sessions.Postgres.{Redis, beside, postgres_versions, stored_in}
use nexustal.Storage.{Tables, exec}
use nexustal.Storage.Columns.{varchar}
use nexustal.Storage.Users.{find_user_by_id, update_user, set_user, fitted_user}
use nexustal.Sessions.Revocation.{
  rotate_version-revokes, validate_access_token-stored, rotate_version-unless_held, names, Versions,
  Coherent,
}
use nexustal.Domain.Identity.{Uuid}
use nexustal.Domain.Ports.{Cache}
use nexustal.Sessions.Tokens.{forget, issuer_name, JwtLib, JwtTokenService, rotate_version, Payload}
use nexustal.Sessions.Tokens.{cache_key_for, validate_access_token}
use nexustal.Common.{
  inl, ◌⊎◌, eq_refl, ◌≡◌, refl, ◌≢◌, true, Option, none, some, [], ◌∷◌, arith, if◌then◌else◌, Text,
  lit, ◌==◌, eq_iff,
}

abbrev pub Entries : Type 0
Entries = Text → Option Text

abbrev entries_cache : Cache Entries
entries_cache = record {
  read = λ key r. (r key, r);
  setex = λ key seconds value r. (tt, λ k. if key == k then some value else r k);
  delete = λ key r. (tt, λ k. if key == k then none else r k);
}

pub setex-entries :
    (key value : Text) (r : Entries) (k : Text)
    → ((if key == k then some value else r k) ≡ r k)
      ⊎ ((key ≡ k) × ((if key == k then some value else r k) ≡ some value))
setex-entries key value r k = ground (arith, eq_iff key k)

pub delete-entries :
    (key : Text) (r : Entries) (k : Text)
    → ((if key == k then none else r k) ≡ r k)
      ⊎ ((key ≡ k) × ((if key == k then none else r k) ≡ none))
delete-entries key r k = ground (arith, eq_iff key k)

abbrev pub keeping : Redis Entries
keeping = record {
  cache = entries_cache;
  entries = λ r. r;
  read_entries = λ key r. refl;
  setex_entries = λ key seconds value r k. setex-entries key value r k;
  delete_entries = delete-entries;
}

-- A Redis that loses every deletion.
abbrev lossy : Redis Entries
lossy = record {
  cache = record entries_cache { delete = λ key r. (tt, r) };
  entries = λ r. r;
  read_entries = λ key r. refl;
  setex_entries = λ key seconds value r k. setex-entries key value r k;
  delete_entries = λ key r k. inl refl;
}

abbrev old_payload : Payload
old_payload = record {
  issuer = issuer_name;
  subject = bob;
  version = b'1' ∷ [];
  jti = [];
  issued_at = 0;
  expires_at = 900;
}

abbrev trusting : JwtLib
trusting = record {
  sign = λ secret payload. [];
  verify = λ secret issuer now token. some old_payload;
}

abbrev pub service_with : JwtLib → JwtTokenService (Tables × Entries)
service_with lib = beside plain (some lib) [] keeping

abbrev service : JwtTokenService (Tables × Entries)
service = service_with trusting

abbrev pub versions_for : (lib : JwtLib) → Versions (Tables × Entries) (service_with lib)
versions_for lib = postgres_versions plain (some lib) [] keeping

abbrev versions : Versions (Tables × Entries) service
versions = versions_for trusting

abbrev pub start : Tables × Entries
start = (office, λ k. none)

start-Coherent : Coherent versions start
unfolding Coherent
start-Coherent id v e = absurd (ground arith)

validate_access_token-stored_example : (validate_access_token service 5 [] start).0 ≡ (
    if names (stored_in office bob) old_payload.version
    then some (record { user_id = bob; token_version = old_payload.version })
    else none)
validate_access_token-stored_example =
    validate_access_token-stored versions 5 [] old_payload start start-Coherent refl

abbrev renewed : Uuid
renewed = b'2' ∷ []

is_old : old_payload.version ≢ renewed
is_old e = absurd (ground arith)

known : (service.users.find_by_id bob start).0 ≡ some (user_named bob)
unfolding find_user_by_id exec ◌==◌
known = refl

stores :
    (service.users.update
      (record (user_named bob) { token_version = renewed })
      (service.users.find_by_id bob start).1).0
    ≡ true
unfolding find_user_by_id exec update_user set_user fitted_user varchar lit ◌==◌
stores = refl

pub deletes :
    (x : Tables × Entries)
    → (forget (service_with trusting).cache bob x).1.1 (cache_key_for bob) ≡ none
deletes x = ground (arith, eq_refl (cache_key_for bob))

rotate_version-revokes_example :
    (validate_access_token service 5 [] (rotate_version service renewed bob start).1).0 ≡ none
rotate_version-revokes_example =
    rotate_version-revokes versions renewed bob start (user_named bob) 5 [] old_payload deletes
      known stores refl refl is_old

abbrev losing : JwtTokenService (Tables × Entries)
losing = beside plain (some trusting) [] lossy

-- The old version is cached when the rotation begins.
abbrev cached : Tables × Entries
cached = (office, λ k. some old_payload.version)

rotate_version-unless_held_example :
    let v = (rotate_version losing renewed bob cached).1 in
    (validate_access_token losing 5 [] v).0 ≡ (
      if names (v.1 (cache_key_for bob)) old_payload.version
      then some (record { user_id = bob; token_version = old_payload.version })
      else none)
rotate_version-unless_held_example =
    rotate_version-unless_held (postgres_versions plain (some trusting) [] lossy) renewed bob cached
      (user_named bob) 5 [] old_payload known stores refl refl is_old
