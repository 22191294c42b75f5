-- ===== src/Tests/Login.antt =====
-- A login with tokens that hold their payload in the clear.
use nexustal.Sessions.Login.{logout-revokes, login-accepted}
use nexustal.Tests.Data.{user_named, bob, office}
use nexustal.Sessions.Postgres.{stored_in}
use nexustal.Storage.{Tables, exec}
use nexustal.Storage.Columns.{varchar}
use nexustal.Tests.Sessions.{Entries}
use nexustal.Storage.Users.{
  find_user_by_id, find_user_by_username, update_user, set_user, fitted_user,
}
use nexustal.Services.Auth.{logout, login}
use nexustal.Sessions.Revocation.{Coherent}
use nexustal.Sessions.Tokens.{remember, payload_for, token_service, JwtLib, Payload}
use nexustal.Tests.Sessions.{start, versions_for, service_with, deletes}
use nexustal.Domain.Ports.{PasswordHasher}
use nexustal.Sessions.Tokens.{validate_access_token}
use nexustal.Common.{
  ◌≤◌, ◌≢◌, ℕ, ◌+◌, ◌<◌, ◌≡◌, refl, true, Option, none, some, [], ◌∷◌, ◌++◌, arith, Text, lit, ◌==◌,
  length, take-length, drop-length, take, drop,
}

infixl 5 ◌>>?◌
abbrev ◌>>?◌ {ℓ κ} : {A : Type ℓ} {B : Type κ} → Option A → (A → Option B) → Option B
none >>? k = none
some a >>? k = k a

-- A text behind its length.
abbrev sized : Text → Text → Text
sized t rest = length t ∷ (t ++ rest)

unsize : Text → Option (Text × Text)
unsize [] = none
unsize (n ∷ rest) = some (take rest n, drop rest n)

unsize-sized : (t rest : Text) → unsize (sized t rest) ≡ some (t, rest)
unfolding unsize
unsize-sized t rest = rw (take-length t rest, drop-length t rest) refl

abbrev printed : Payload → Text
printed p =
    sized p.issuer (
      sized p.subject
        (sized p.version (sized p.jti (sized (p.issued_at ∷ []) (p.expires_at ∷ [])))))

abbrev number_of : Text → ℕ
number_of [] = 0
number_of (n ∷ _) = n

read_payload : Text → Option Payload
unfolding unsize
read_payload token = unsize token >>? λ i. unsize i.1 >>? λ s. unsize s.1 >>? λ v.
    unsize v.1 >>? λ j. unsize j.1 >>? λ a. some (record {
      issuer = i.0;
      subject = s.0;
      version = v.0;
      jti = j.0;
      issued_at = number_of a.0;
      expires_at = number_of a.1;
    })

read_payload-printed : (p : Payload) → read_payload (printed p) ≡ some p
unfolding read_payload
read_payload-printed p =
    let a = sized (p.issued_at ∷ []) (p.expires_at ∷ []) in
    let j = sized p.jti a in
    let v = sized p.version j in
    let u = sized p.subject v in
    ground (
      arith,
      unsize-sized p.issuer u,
      unsize-sized p.subject v,
      unsize-sized p.version j,
      unsize-sized p.jti a,
      unsize-sized (p.issued_at ∷ []) (p.expires_at ∷ []),
    )

abbrev clear : JwtLib
clear = record {
  sign = λ secret payload. printed payload;
  verify = λ secret issuer now token. read_payload token;
}

abbrev matching : PasswordHasher
matching = record { hash = λ password. []; verify = λ password hash. true }

start-Coherent : Coherent (versions_for clear) start
unfolding Coherent
start-Coherent id v e = absurd (ground arith)

bob_read : ((service_with clear).users.find_by_username bob start).0 ≡ some (user_named bob)
unfolding find_user_by_username exec ◌==◌
bob_read = refl

bob_stored : stored_in office bob ≡ some (b'1' ∷ [])
unfolding ◌==◌
bob_stored = refl

soon : 60 < 50 + 900
soon = omega arith

already : 50 ≤ 60
already = omega arith

login-accepted_example :
    let service = service_with clear in
    let token = printed (payload_for [] 50 (user_named bob)) in
    let (result, after) =
      login
        (service_with clear).users
        matching
        (token_service service [] (b'2' ∷ []) 50)
        bob
        []
        start in
    (result
      ≡ some (record {
        success = true;
        message = lit "authenticated";
        access_token = token;
        user_id = bob;
      }))
    × ((validate_access_token service 60 token after).0
        ≡ some (record { user_id = bob; token_version = b'1' ∷ [] }))
unfolding find_user_by_username exec
login-accepted_example =
    login-accepted (service_with clear) (versions_for clear) clear matching [] (b'2' ∷ []) 50 refl
      (λ p later i since lt. read_payload-printed p) bob [] (user_named bob) start 60 already soon
      bob_read start-Coherent bob_stored refl refl

abbrev logged_in : Tables × Entries
logged_in =
    (remember (service_with clear).cache bob (b'1' ∷ [])
      ((service_with clear).users.find_by_username bob start).1).1

found_again : ((service_with clear).users.find_by_id bob logged_in).0 ≡ some (user_named bob)
unfolding find_user_by_username find_user_by_id exec ◌==◌
found_again = refl

renewed :
    ((service_with clear).users.update
      (record (user_named bob) { token_version = b'2' ∷ [] })
      logged_in).0
    ≡ true
unfolding find_user_by_username find_user_by_id exec update_user set_user fitted_user varchar lit
    ◌==◌
renewed = refl

is_old : (user_named bob).token_version ≢ b'2' ∷ []
is_old e = absurd (ground arith)

logout-revokes_example :
    let service = service_with clear in
    let logged =
      (login
        (service_with clear).users
        matching
        (token_service service [] (b'2' ∷ []) 50)
        bob
        []
        start).1 in
    let (done, out) =
      logout
        (service_with clear).users
        matching
        (token_service service [] (b'2' ∷ []) 50)
        bob
        logged in
    (done ≡ true)
    × ((validate_access_token service 60 (printed (payload_for [] 50 (user_named bob))) out).0
        ≡ none)
unfolding find_user_by_id find_user_by_username ◌==◌ exec
logout-revokes_example =
    logout-revokes (service_with clear) (versions_for clear) clear matching [] (b'2' ∷ []) 50 refl
      (λ p later i since lt. read_payload-printed p) bob [] (user_named bob) start (user_named bob)
      60 already soon bob_read refl is_old deletes found_again renewed refl refl
