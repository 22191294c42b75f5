-- ===== src/Storage/Invitations.antt =====
-- backend/infrastructure/adapters/postgres_invitation_repository.cpp.
pub mod Pending
use nexustal.Common.{
  ℕ, Bool, not, ◌&&◌, Option, none, some, List, [], ◌∷◌, ◌++◌, if◌then◌else◌, Text, lit, ◌==◌,
  update_where, count_if, order_desc, any, select, Action, ◌>>=◌, pure,
}
use nexustal.Domain.Identity.{Uuid, InvitationStatus, pending, accepted, rejected, Invitation}
use nexustal.Domain.Capabilities.{role_from_string, to_string}
use nexustal.Domain.Ports.{InvitationRepository}
use nexustal.Storage.{
  Tables, Database, InvitationRow, Statement, exec, allowed_role, allowed_status, has_user,
  has_team, has_project, refers,
}
use nexustal.Storage.Members.{affected, returned}

unfoldable pub status_to_string : InvitationStatus → Text
status_to_string accepted = lit "accepted"
status_to_string rejected = lit "rejected"
status_to_string pending = lit "pending"

unfoldable pub status_from_string : Text → InvitationStatus
status_from_string status =
    if status == lit "accepted"
    then accepted
    else if status == lit "rejected"
    then rejected
    else pending

abbrev pub has_invitation : Tables → Uuid → Bool
has_invitation t id = any (λ r. r.id == id) t.invitations

-- The row that the four forms of the statement insert: an absent team or project is NULL.
abbrev pub row_of : Invitation → Tables → InvitationRow
row_of invitation t = record {
  id = invitation.id;
  from_user_id = invitation.from_user_id;
  to_user_id = invitation.to_user_id;
  team_id = invitation.team_id;
  project_id = invitation.project_id;
  role = to_string invitation.role;
  status = status_to_string invitation.status;
  created_at = t.now;
  responded_at = none;
}

-- The constraints of the table.
abbrev pub acceptable : InvitationRow → Tables → Bool
acceptable row t =
    not (has_invitation t row.id)
    && (has_user t row.from_user_id
        && (has_user t row.to_user_id
            && (refers (has_team t) row.team_id
                && (refers (has_project t) row.project_id
                    && (allowed_role row.role && allowed_status row.status)))))

unfoldable pub insert_invitation : Invitation → Statement Uuid
insert_invitation invitation t =
    let row = row_of invitation t in
    if acceptable row t
    then some (row.id, record t { invitations = t.invitations ++ row ∷ [] })
    else none

unfoldable pub create_invitation : Invitation → Action Database Uuid
create_invitation invitation = do
  result ← exec (insert_invitation invitation)
  pure (returned result)

-- `mapInvitation`
unfoldable pub map_invitation : InvitationRow → Invitation
map_invitation row = record {
  id = row.id;
  from_user_id = row.from_user_id;
  to_user_id = row.to_user_id;
  project_id = row.project_id;
  team_id = row.team_id;
  role = role_from_string row.role;
  status = status_from_string row.status;
  created_at = row.created_at;
}

abbrev pub is_pending_for : Uuid → InvitationRow → Bool
is_pending_for user_id row = row.to_user_id == user_id && row.status == lit "pending"

unfoldable pub select_pending : Uuid → Statement (List InvitationRow)
select_pending user_id t =
    some (order_desc (λ r. r.created_at) (select (is_pending_for user_id) t.invitations), t)

abbrev pub map_invitations : List InvitationRow → List Invitation
map_invitations [] = []
map_invitations (row ∷ rows) = map_invitation row ∷ map_invitations rows

abbrev pub pending_rows : Option (List InvitationRow) → List Invitation
pending_rows none = []
pending_rows (some rows) = map_invitations rows

unfoldable pub find_pending_for_user : Uuid → Action Database (List Invitation)
unfolding map_invitation
find_pending_for_user user_id = do
  result ← exec (select_pending user_id)
  pure (pending_rows result)

abbrev pub answered : Text → Tables → InvitationRow → InvitationRow
answered status t row = record row { status = status; responded_at = some t.now }

unfoldable pub set_status : Text → Uuid → Statement ℕ
set_status status invitation_id t =
    if allowed_status status
    then some (
      count_if (λ r. r.id == invitation_id) t.invitations,
      record t {
        invitations = update_where (λ r. r.id == invitation_id) (answered status t) t.invitations;
      },
    )
    else none

unfoldable pub update_status : Uuid → InvitationStatus → Action Database Bool
update_status invitation_id status = do
  result ← exec (set_status (status_to_string status) invitation_id)
  pure (affected result)

abbrev pub invitation_repository : InvitationRepository Database
invitation_repository = record {
  create = create_invitation;
  find_pending_for_user = find_pending_for_user;
  update_status = update_status;
}
