-- ===== src/Services/Engine.antt =====
-- The wiring of backend/src/main.cpp: the services over the PostgreSQL repositories, and the
-- notifications in the order in which they are handed to the notification service.
use nexustal.Common.{some, List, [], ◌∷◌, ◌++◌, Action}
use nexustal.Domain.Identity.{Uuid, Notification}
use nexustal.Domain.Ports.{
  UserRepository, TeamRepository, ProjectRepository, InvitationRepository, NotificationService,
}
use nexustal.Storage.{Database}
use nexustal.Storage.Users.{
  Collation, find_user_by_username, find_user_by_id, search_users, create_user, update_user,
}
use nexustal.Storage.Members.{
  create_team, find_team_by_id, find_teams_by_owner, add_team_member, add_project_member,
  find_role_for_user,
}
use nexustal.Storage.Invitations.{create_invitation, find_pending_for_user, update_status}
use nexustal.Services.Invitations.{InvitationService}

pub record World : Type 0 where
  pub db : Database
  pub sent : List Notification

abbrev pub over : {A : Type 0} → Action Database A → Action World A
over call w = ((call w.db).0, record w { db = (call w.db).1 })

abbrev pub users : Collation → (fresh_id fresh_version : Uuid) → UserRepository World
users collation fresh_id fresh_version = record {
  find_by_username = λ name. over (find_user_by_username name);
  find_by_id = λ id. over (find_user_by_id id);
  search = λ criteria. over (search_users collation criteria);
  create = λ user. over (create_user fresh_id fresh_version user);
  update = λ user. over (update_user user);
}

abbrev pub teams : TeamRepository World
teams = record {
  create = λ team. over (create_team team);
  find_by_id = λ id. over (find_team_by_id id);
  find_by_owner = λ id. over (find_teams_by_owner id);
  add_member = λ team_id user_id role. over (add_team_member team_id user_id role);
}

abbrev pub projects : ProjectRepository World
projects = record {
  find_role_for_user = λ project_id user_id. over (find_role_for_user project_id user_id);
  add_member = λ project_id user_id role. over (add_project_member project_id user_id role);
}

abbrev pub invitations : InvitationRepository World
invitations = record {
  create = λ invitation. over (create_invitation invitation);
  find_pending_for_user = λ id. over (find_pending_for_user id);
  update_status = λ id status. over (update_status id status);
}

abbrev pub notifications : NotificationService World
notifications = record {
  send_notification = λ notice w. (tt, record w { sent = w.sent ++ notice ∷ [] });
}

-- `invitationService`
abbrev pub invitation_service : Collation → InvitationService World
invitation_service collation = record {
  users = users collation [] [];
  teams = some teams;
  projects = some projects;
  invitations = invitations;
  notifications = some notifications;
}
