-- ===== src/Domain/Ports.antt =====
-- The abstract classes that the services call: backend/domain/identity_repository.hpp,
-- endpoint_repository.hpp, environment/environment_repository.hpp, password_hasher.hpp and
-- notification_port.hpp. `S` is the state behind them. A call that lets an exception out returns
-- nothing in its place.
use nexustal.Common.{ℕ, Bool, Option, List, Text, Action}
use nexustal.Domain.Identity.{
  Uuid, UserRole, InvitationStatus, User, Team, Invitation, UserSearchCriteria, Notification,
}
use nexustal.Domain.Endpoint.{Endpoint}
use nexustal.Domain.Environment.{Environment, GlobalVariables}

pub record UserRepository (S : Type 0) : Type 0 where
  pub find_by_username : Text → Action S (Option User)
  pub find_by_id : Uuid → Action S (Option User)
  pub search : UserSearchCriteria → Action S (List User)
  pub create : User → Action S (Option Uuid)
  pub update : User → Action S Bool

pub record TeamRepository (S : Type 0) : Type 0 where
  pub create : Team → Action S Uuid
  pub find_by_id : Uuid → Action S (Option Team)
  pub find_by_owner : Uuid → Action S (List Team)
  pub add_member : Uuid → Uuid → UserRole → Action S Bool

pub record ProjectRepository (S : Type 0) : Type 0 where
  pub find_role_for_user : Uuid → Uuid → Action S (Option UserRole)
  pub add_member : Uuid → Uuid → UserRole → Action S Bool

pub record InvitationRepository (S : Type 0) : Type 0 where
  pub create : Invitation → Action S Uuid
  pub find_pending_for_user : Uuid → Action S (List Invitation)
  pub update_status : Uuid → InvitationStatus → Action S Bool

pub record EndpointRepository (S : Type 0) : Type 0 where
  pub find_by_project : Uuid → Action S (Option (List Endpoint))
  pub find_by_id : Uuid → Action S (Option (Option Endpoint))
  pub create : Endpoint → Action S (Option Uuid)
  pub update : Endpoint → Action S (Option Bool)
  pub remove : Uuid → Action S Bool
  pub search_by_tags : Uuid → List Uuid → Action S (List Endpoint)

pub record EnvironmentRepository (S : Type 0) : Type 0 where
  pub find_by_project : Uuid → Action S (List Environment)
  pub find_by_id : Uuid → Action S (Option Environment)
  pub create : Environment → Action S Uuid
  pub update : Environment → Action S Bool
  pub remove : Uuid → Action S Bool
  pub get_global_variables : Uuid → Action S GlobalVariables
  pub set_global_variables : GlobalVariables → Action S Bool

pub record NotificationService (S : Type 0) : Type 0 where
  pub send_notification : Notification → Action S (Unit {0})

pub record PasswordHasher : Type 0 where
  pub hash : Text → Text
  pub verify : Text → Text → Bool

-- The Redis client. A read gives the text of the reply, or nothing where it throws; a write is
-- queued, and its reply is ignored.
pub record Cache (S : Type 0) : Type 0 where
  pub read : Text → Action S (Option Text)
  pub setex : Text → ℕ → Text → Action S (Unit {0})
  pub delete : Text → Action S (Unit {0})

-- backend/domain/auth/token_service.hpp
pub record TokenClaims : Type 0 where
  pub user_id : Uuid
  pub token_version : Uuid

pub record TokenService (S : Type 0) : Type 0 where
  pub create_tokens : User → Action S (Option Text)
  pub validate_access_token : Text → Action S (Option TokenClaims)
  pub rotate_version : Uuid → Action S (Unit {0})
