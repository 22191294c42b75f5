-- ===== src/Services/Invitations/Membership.antt =====
-- Whom an accepted invitation makes a member, and what is lost where the server fails half-way.
use mathlib.Core.Option
use nexustal.Common.{
  ◌≡◌, refl, ap, ◌∙◌, ◌≢◌, Bool, true, false, ◌&&◌, none, some, List, [], ◌∷◌, ◌++◌, arith,
  if◌then◌else◌, lit, ◌==◌, find_if, update_where,
}
use nexustal.Domain.Identity.{Notification, Uuid, Timestamp, admin, accepted, Invitation}
use nexustal.Domain.Capabilities.{role_from_string}
use nexustal.Storage.{Tables, ProjectRow, InvitationRow, exec, has_team, has_user}
use nexustal.Storage.Members.{add_project_member}
use nexustal.Storage.Members.Laws.{role_of, add_project_member-role_of, has_team_id}
use nexustal.Storage.Users.{Collation}
use nexustal.Storage.Invitations.{
  status_to_string, map_invitation, select_pending, find_pending_for_user, answered,
}
use nexustal.Storage.Invitations.Pending.{
  any-answered, pending_row, find_if-map_invitations, pending_row_sound, IsAnswered,
  update_status-answers,
}
use nexustal.Services.Engine.{World, over, invitation_service}
use nexustal.Services.Invitations.{accepted_notice, persist_membership, accept_pending, accept}

-- The listing of a user's pending invitations, searched while the server answers.
listed_row :
    (id user_id : Uuid) (t : Tables) (o : List Bool) (r : InvitationRow)
    → pending_row id user_id t.invitations ≡ some r
    → ((find_pending_for_user user_id (record { tables = t; outages = false ∷ o })).1
        ≡ record { tables = t; outages = o })
      × (find_if
            (λ i. i.id == id)
            (find_pending_for_user user_id (record { tables = t; outages = false ∷ o })).0
          ≡ some (map_invitation r))
unfolding find_pending_for_user select_pending pending_row exec
listed_row id user_id t o r e =
    (refl, find_if-map_invitations id _ ∙ ap (Option.map map_invitation) e)

accepted_not_pending : (status_to_string accepted == lit "pending") ≡ false
unfolding status_to_string lit ◌==◌
accepted_not_pending = refl

abbrev answered_tables : Uuid → Tables → Tables
answered_tables id t = record t {
  invitations =
      update_where (λ r. r.id == id) (answered (status_to_string accepted) t) t.invitations;
}

-- What follows the membership step.
closing : Notification → Bool × World → Bool × World
closing notice (false, w) = (false, w)
closing notice (true, w) = (true, record w { sent = w.sent ++ notice ∷ [] })

module _ (collation : Collation) (notice_id : Uuid) (now : Timestamp) (id user_id : Uuid)
    (t : Tables) (sent : List Notification) (r : InvitationRow)
    (found : pending_row id user_id t.invitations ≡ some r) where
  accept_pending-closing :
      (i : Invitation) (o : List Bool)
      → accept_pending
          (invitation_service collation)
          notice_id
          now
          id
          user_id
          i
          (record { db = record { tables = t; outages = false ∷ o }; sent = sent })
        ≡ closing (accepted_notice notice_id i.from_user_id now) (
            persist_membership
              (invitation_service collation)
              i
              user_id
              (record { db = record { tables = answered_tables id t; outages = o }; sent = sent }))
  unfolding accept_pending closing
  accept_pending-closing i o = ground (
    arith,
    update_status-answers id accepted t o ((pending_row_sound id user_id t.invitations r found).2),
  )

  -- The listing and the new status, while the server answers, lead to the membership step.
  accept-closing :
      (o : List Bool)
      → accept
          (invitation_service collation)
          notice_id
          now
          id
          user_id
          (record { db = record { tables = t; outages = false ∷ false ∷ o }; sent = sent })
        ≡ closing (accepted_notice notice_id r.from_user_id now) (
            persist_membership
              (invitation_service collation)
              (map_invitation r)
              user_id
              (record { db = record { tables = answered_tables id t; outages = o }; sent = sent }))
  unfolding accept map_invitation
  accept-closing o = ground (
    arith,
    listed_row id user_id t (false ∷ o) r found,
    accept_pending-closing (map_invitation r) o,
  )

persist-project :
    (collation : Collation) (user_id project_id : Uuid) (r : InvitationRow) (w : World)
    → r.team_id ≡ none
    → r.project_id ≡ some project_id
    → persist_membership (invitation_service collation) (map_invitation r) user_id w
      ≡ over (add_project_member project_id user_id (role_from_string r.role)) w
unfolding persist_membership map_invitation
persist-project collation user_id project_id r w team project = ground arith

-- For as long as the three statements of an acceptance are answered, a pending invitation to a
-- project, in a role other than the administrator's, is accepted: the call reports success, the
-- user has the role of the invitation in every project of that project's team, no other role
-- changes, and the sender is notified.
pub accept_grants :
    (collation : Collation) (notice_id : Uuid) (now : Timestamp) (id user_id : Uuid) (t : Tables)
    (sent : List Notification) (r : InvitationRow) (project_id : Uuid) (p : ProjectRow)
    → pending_row id user_id t.invitations ≡ some r
    → r.team_id ≡ none
    → r.project_id ≡ some project_id
    → role_from_string r.role ≢ admin
    → find_if (λ q. q.id == project_id) t.projects ≡ some p
    → has_team t p.team_id ≡ true
    → has_user t user_id ≡ true
    → (t' : Tables) × (accept
          (invitation_service collation)
          notice_id
          now
          id
          user_id
          (record { db = record { tables = t; outages = false ∷ false ∷ [] }; sent = sent })
        ≡ (
          true,
          record {
            db = record { tables = t'; outages = [] };
            sent = sent ++ accepted_notice notice_id r.from_user_id now ∷ [];
          },
        ))
      × ((project' user' : Uuid)
          → role_of t' project' user' ≡ (
              if user_id == user'
                && has_team_id p.team_id (find_if (λ q. q.id == project') t.projects)
              then some (role_from_string r.role)
              else role_of t project' user'))
unfolding closing role_of
accept_grants collation notice_id now id user_id t sent r project_id p found team project role
      at_project known user =
    let (t', stored, roles) =
      add_project_member-role_of project_id user_id (role_from_string r.role) (answered_tables id t)
        p at_project known user role in
    (
      t',
      rw
          (
            accept-closing collation notice_id now id user_id t sent r found [],
            persist-project collation user_id project_id r _ team project,
            stored,
          )
          refl,
      roles,
    )

-- Where the server answers the listing and the new status, and refuses the statement that stores
-- the membership, an invitation to a project is lost: the acceptance reports failure and grants no
-- role, yet nothing of the identifier is pending any more, and nobody is notified.
pub accept_lost :
    (collation : Collation) (notice_id : Uuid) (now : Timestamp) (id user_id : Uuid) (t : Tables)
    (sent : List Notification) (r : InvitationRow) (project_id : Uuid) (o : List Bool)
    → pending_row id user_id t.invitations ≡ some r
    → r.team_id ≡ none
    → r.project_id ≡ some project_id
    → (t' : Tables) × (accept
          (invitation_service collation)
          notice_id
          now
          id
          user_id
          (record { db = record { tables = t; outages = false ∷ false ∷ true ∷ o }; sent = sent })
        ≡ (false, record { db = record { tables = t'; outages = o }; sent = sent }))
      × IsAnswered id t'
      × ((project' user' : Uuid) → role_of t' project' user' ≡ role_of t project' user')
unfolding closing add_project_member exec role_of
accept_lost collation notice_id now id user_id t sent r project_id o found team project = (
  answered_tables id t,
  rw
      (
        accept-closing collation notice_id now id user_id t sent r found (true ∷ o),
        persist-project collation user_id project_id r _ team project,
      )
      refl,
  any-answered id (status_to_string accepted) t t.invitations accepted_not_pending,
  λ project' user'. refl,
)
