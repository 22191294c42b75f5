-- ===== src/Http/Auth.antt =====
-- backend/src/controllers/auth_controller.cpp.
use nexustal.Http.Payloads.{text_at}
use nexustal.Domain.Identity.{Uuid}
use nexustal.Http.{get_header, ok, Request, error, Response, JsonCpp}
use nexustal.Services.Auth.{logout, login, LoginResult}
use nexustal.Domain.Ports.{TokenService, PasswordHasher, UserRepository}
use nexustal.Domain.Json.{string, boolean, object_of, object, Json, JsonLib}
use nexustal.Common.{
  Bool, true, false, Option, none, some, [], ◌∷◌, if◌then◌else◌, Text, lit, is_empty, Action, ◌>>=◌,
  pure,
}

abbrev unavailable : JsonLib → Response
unavailable lib = error lib 503 (lit "auth service is not configured")

abbrev unauthorized : JsonLib → Response
unauthorized lib = error lib 401 (lit "unauthorized")

abbrev logged_in : JsonLib → Option LoginResult → Option Response
logged_in lib none = none
logged_in lib (some result) = some (
    if result.success
    then ok (object (object_of lib ((lit "access_token", string result.access_token) ∷ [])))
    else unauthorized lib)

-- What `AuthService` is made of.
pub record AuthService (S : Type 0) : Type 0 where
  pub users : UserRepository S
  pub hasher : PasswordHasher
  pub tokens : TokenService S

module _ {S : Type 0} (lib : JsonLib) (cpp : JsonCpp) (service : Option (AuthService S)) where
  abbrev login_with : AuthService S → Option Text → Option Text → Action S (Option Response)
  login_with auth none password = pure none
  login_with auth (some username) none = pure none
  login_with auth (some username) (some password) = do
    result ← login auth.users auth.hasher auth.tokens username password
    pure (logged_in lib result)

  abbrev login_body : AuthService S → Option Json → Action S (Option Response)
  login_body auth none = pure (some (error lib 400 (lit "invalid json")))
  login_body auth (some json) =
      login_with auth (text_at lib cpp json (lit "username"))
        (text_at lib cpp json (lit "password"))

  unfoldable pub login_route : Request → Action S (Option Response)
  login_route request = elim service [
    | none ↦ pure (some (unavailable lib))
    | some auth ↦ login_body auth request.json
  ]

  abbrev logout_as : AuthService S → Uuid → Bool → Action S Response
  logout_as auth user_id true = pure (unauthorized lib)
  logout_as auth user_id false = do
    success ← logout auth.users auth.hasher auth.tokens user_id
    pure (
        if success
        then ok (object (object_of lib ((lit "success", boolean true) ∷ [])))
        else unauthorized lib)

  unfoldable pub logout_route : Request → Action S Response
  logout_route request = elim service [
    | none ↦ pure (unavailable lib)
    | some auth ↦
        let user_id = get_header (lit "x-user-id") request in
        logout_as auth user_id (is_empty user_id)
  ]
