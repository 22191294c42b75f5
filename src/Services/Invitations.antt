-- ===== src/Services/Invitations.antt =====
-- backend/application/invitation_service.cpp. The repositories and the notification service are
-- parameters; a null pointer to one of the optional ones is nothing. Generated identifiers and
-- the clock are arguments.
pub mod Acceptance
pub mod Membership
pub mod Sending
use nexustal.Common.{
  Bool, true, false, Option, none, some, List, [], is_some, lit, ◌==◌, is_empty, find_if, Action,
  ◌>>=◌, ◌>>◌, pure,
}
use nexustal.Domain.Identity.{
  Uuid, Timestamp, UserRole, pending, accepted, rejected, Invitation, Notification,
}
use nexustal.Domain.Ports.{
  UserRepository, TeamRepository, ProjectRepository, InvitationRepository, NotificationService,
}

pub record InvitationService (S : Type 0) : Type 0 where
  pub users : UserRepository S
  pub teams : Option (TeamRepository S)
  pub projects : Option (ProjectRepository S)
  pub invitations : InvitationRepository S
  pub notifications : Option (NotificationService S)

abbrev pub received_notice : Uuid → Uuid → Timestamp → Notification
received_notice id to_user now = record {
  id = id;
  user_id = to_user;
  title = lit "Invitation received";
  message = lit "You have a new invitation waiting.";
  kind = lit "invitation";
  is_read = false;
  created_at = now;
}

abbrev pub accepted_notice : Uuid → Uuid → Timestamp → Notification
accepted_notice id from_user now = record {
  id = id;
  user_id = from_user;
  title = lit "Invitation accepted";
  message = lit "A user accepted your invitation.";
  kind = lit "invitation_accepted";
  is_read = false;
  created_at = now;
}

unfoldable pub join_project :
    {S : Type 0} → UserRole → Uuid → Option Uuid → Option (ProjectRepository S) → Action S Bool
join_project role user_id (some project_id) (some port) = port.add_member project_id user_id role
join_project role user_id (some project_id) none = pure false
join_project role user_id none _ = pure false

unfoldable pub join_team :
    {S : Type 0}
    → UserRole
    → Uuid
    → Option Uuid
    → Option (TeamRepository S)
    → Action S Bool
    → Action S Bool
join_team role user_id (some team_id) (some port) otherwise = port.add_member team_id user_id role
join_team role user_id (some team_id) none otherwise = otherwise
join_team role user_id none _ otherwise = otherwise

abbrev pub new_invitation : Uuid → Uuid → Uuid → Uuid → UserRole → Timestamp → Invitation
new_invitation id from_user to_user project_id role now = record {
  id = id;
  from_user_id = from_user;
  to_user_id = to_user;
  project_id = some project_id;
  team_id = none;
  role = role;
  status = pending;
  created_at = now;
}

module _ {S : Type 0} (service : InvitationService S) where
  open service use {users, teams, projects, invitations, notifications}

  abbrev pub notify : Notification → Action S (Unit {0})
  notify notice = elim notifications [ none ↦ pure tt | some port ↦ port.send_notification notice ]

  -- The two lookups of a disjunction: the second is made only if the first succeeds.
  unfoldable pub both_known : Uuid → Uuid → Action S Bool
  both_known from_user to_user = do
    from ← users.find_by_id from_user
    elim from [ none ↦ pure false | some _ ↦ do to ← users.find_by_id to_user; pure (is_some to) ]

  unfoldable pub send_invitation :
      (id notice_id : Uuid) (now : Timestamp) → Uuid → Uuid → Uuid → UserRole → Action S Uuid
  unfolding both_known
  send_invitation id notice_id now from_user to_user project_id role = do
    known ← both_known from_user to_user
    elim known [
      | false ↦ pure []
      | true ↦ do
        created_id ← invitations.create (new_invitation id from_user to_user project_id role now)
        elim (is_empty created_id) [
          | true ↦ pure created_id
          | false ↦ do notify (received_notice notice_id to_user now); pure created_id
        ]
    ]

  unfoldable pub get_pending_for_user : Uuid → Action S (List Invitation)
  get_pending_for_user user_id = invitations.find_pending_for_user user_id

  -- The membership that an accepted invitation grants: in its team, or else in its project.
  unfoldable pub persist_membership : Invitation → Uuid → Action S Bool
  unfolding join_team join_project
  persist_membership invitation user_id =
      join_team invitation.role user_id invitation.team_id teams
        (join_project invitation.role user_id invitation.project_id projects)

  unfoldable pub accept_pending : Uuid → Timestamp → Uuid → Uuid → Invitation → Action S Bool
  unfolding persist_membership
  accept_pending notice_id now invitation_id user_id invitation = do
    updated ← invitations.update_status invitation_id accepted
    elim updated [
      | false ↦ pure false
      | true ↦ do
        persisted ← persist_membership invitation user_id
        elim persisted [
          | false ↦ pure false
          | true ↦ do notify (accepted_notice notice_id invitation.from_user_id now); pure true
        ]
    ]

  unfoldable pub accept : (notice_id : Uuid) (now : Timestamp) → Uuid → Uuid → Action S Bool
  unfolding accept_pending
  accept notice_id now invitation_id user_id = do
    found ← invitations.find_pending_for_user user_id
    elim (find_if (λ i. i.id == invitation_id) found) [
      | none ↦ pure false
      | some invitation ↦ accept_pending notice_id now invitation_id user_id invitation
    ]

  unfoldable pub reject : Uuid → Uuid → Action S Bool
  reject invitation_id user_id = do
    found ← invitations.find_pending_for_user user_id
    elim (find_if (λ i. i.id == invitation_id) found) [
      | none ↦ pure false
      | some _ ↦ invitations.update_status invitation_id rejected
    ]
