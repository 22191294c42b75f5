-- ===== src/Services/Auth.antt =====
-- backend/application/auth_service.cpp.
use nexustal.Common.{
  Bool, true, false, not, Option, none, some, [], if◌then◌else◌, Text, lit, is_empty, Action, ◌>>=◌,
  pure,
}
use nexustal.Domain.Identity.{Uuid, User}
use nexustal.Domain.Ports.{UserRepository, PasswordHasher, TokenService, TokenClaims}

pub record LoginResult : Type 0 where
  pub success : Bool
  pub message : Text
  pub access_token : Text
  pub user_id : Uuid

abbrev pub refusal : Text → LoginResult
refusal message = record { success = false; message = message; access_token = []; user_id = [] }

-- The tokens of an authenticated user; nothing where their creation throws.
abbrev pub authenticated : User → Option Text → Option LoginResult
authenticated user none = none
authenticated user (some token) = some (record {
  success = true;
  message = lit "authenticated";
  access_token = token;
  user_id = user.id;
})

module _ {S : Type 0} (users : UserRepository S) (hasher : PasswordHasher)
    (tokens : TokenService S) where
  unfoldable pub login_as : Text → User → Action S (Option LoginResult)
  login_as password user =
      if not user.is_active
      then pure (some (refusal (lit "user is inactive")))
      else if not (hasher.verify password user.password_hash)
      then pure (some (refusal (lit "invalid credentials")))
      else do created ← tokens.create_tokens user; pure (authenticated user created)

  unfoldable pub login : Text → Text → Action S (Option LoginResult)
  unfolding login_as
  login username password = do
    found ← users.find_by_username username
    elim found [
      | none ↦ pure (some (refusal (lit "invalid credentials")))
      | some user ↦ login_as password user
    ]

  unfoldable pub logout : Uuid → Action S Bool
  logout user_id s =
      if is_empty user_id then (false, s) else (true, (tokens.rotate_version user_id s).1)

  unfoldable pub validate_access_token : Text → Action S (Option TokenClaims)
  validate_access_token token = tokens.validate_access_token token
