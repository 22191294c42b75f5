-- ===== src/Domain/Identity.antt =====
-- backend/domain/identity.hpp. A timestamp is a number of clock ticks.
use nexustal.Common.{ℕ, Bool, Option, Text}

abbrev pub Uuid : Type 0
Uuid = Text

abbrev pub Timestamp : Type 0
Timestamp = ℕ

pub data UserRole : Type 0 where
  admin backend_dev frontend_dev viewer : UserRole

pub data InvitationStatus : Type 0 where
  pending accepted rejected : InvitationStatus

pub record User : Type 0 where
  pub id : Uuid
  pub username : Text
  pub password_hash : Text
  pub is_admin : Bool
  pub is_active : Bool
  pub token_version : Uuid
  pub created_at : Timestamp

pub record Team : Type 0 where
  pub id : Uuid
  pub name : Text
  pub description : Text
  pub owner_id : Uuid
  pub created_at : Timestamp

pub record Invitation : Type 0 where
  pub id : Uuid
  pub from_user_id : Uuid
  pub to_user_id : Uuid
  pub project_id : Option Uuid
  pub team_id : Option Uuid
  pub role : UserRole
  pub status : InvitationStatus
  pub created_at : Timestamp

pub record UserSearchCriteria : Type 0 where
  pub query : Text
  pub exclude_user_id : Option Uuid

-- backend/domain/notification_port.hpp; `type` is `kind`.
pub record Notification : Type 0 where
  pub id : Uuid
  pub user_id : Uuid
  pub title : Text
  pub message : Text
  pub kind : Text
  pub is_read : Bool
  pub created_at : Timestamp
