-- ===== src/Tests/Invitations.antt =====
-- Invitations in the office.
use nexustal.Services.Invitations.Acceptance.{Attempt}
use nexustal.Storage.Members.{upsert, insert_member, insert_project_member, add_project_member}
use nexustal.Services.Invitations.Acceptance.{
  rejecting, accepting, reports, accept_once, accept_sound,
}
use nexustal.Services.Invitations.Sending.{send_invitation-listed, stored}
use nexustal.Services.Invitations.Membership.{accept_grants, accept_lost}
use nexustal.Storage.Members.Laws.{has_team_id, role_of}
use nexustal.Services.Engine.{invitation_service}
use nexustal.Storage.Invitations.Pending.{IsAnswered, pending_row}
use nexustal.Storage.Invitations.{
  status_to_string, status_from_string, map_invitation, set_status, update_status, select_pending,
  find_pending_for_user, has_invitation,
}
use nexustal.Services.Invitations.{
  get_pending_for_user, join_team, accepted_notice, received_notice, join_project,
  persist_membership, accept_pending, send_invitation, accept,
}
use nexustal.Domain.Identity.{viewer, admin, Uuid, backend_dev}
use nexustal.Domain.Capabilities.{to_string, role_from_string}
use nexustal.Tests.Data.{
  shop_known, bob_known, team_known, alice_known, shop_found, running, notice, alice, core, plain,
  shop_row, bob, invited, office, first, shop,
}
use nexustal.Storage.{exec, InvitationRow, Tables}
use nexustal.Common.{
  All, List, ◌≡◌, refl, ◌≢◌, true, false, ◌&&◌, some, [], ◌∷◌, ◌++◌, arith, if◌then◌else◌, lit,
  ◌==◌, find_if,
}

is_viewer : role_from_string invited.role ≡ viewer
unfolding role_from_string lit ◌==◌
is_viewer = refl

not_admin : role_from_string invited.role ≢ admin
not_admin = ground (arith, is_viewer)

found : pending_row first bob office.invitations ≡ some invited
unfolding pending_row lit ◌==◌
found = refl

accept_grants_example :
    (t' : Tables) × (accept
        (invitation_service plain)
        notice
        9
        first
        bob
        (record { db = record { tables = office; outages = false ∷ false ∷ [] }; sent = [] })
      ≡ (
        true,
        record {
          db = record { tables = t'; outages = [] };
          sent = [] ++ accepted_notice notice alice 9 ∷ [];
        },
      ))
    × ((project' user' : Uuid)
        → role_of t' project' user' ≡ (
            if bob == user' && has_team_id core (find_if (λ q. q.id == project') office.projects)
            then some (role_from_string invited.role)
            else role_of office project' user'))
accept_grants_example =
    accept_grants plain notice 9 first bob office [] invited shop shop_row found refl refl not_admin
      shop_found team_known bob_known

accept_lost_example :
    (t' : Tables) × (accept
        (invitation_service plain)
        notice
        9
        first
        bob
        (record { db = record { tables = office; outages = false ∷ false ∷ true ∷ [] }; sent = [] })
      ≡ (false, record { db = record { tables = t'; outages = [] }; sent = [] }))
    × IsAnswered first t'
    × ((project' user' : Uuid) → role_of t' project' user' ≡ role_of office project' user')
accept_lost_example = accept_lost plain notice 9 first bob office [] invited shop [] found refl refl

accepted_first : (accept (invitation_service plain) notice 9 first bob running).0 ≡ true
unfolding accept accept_pending persist_membership join_project join_team find_pending_for_user
    select_pending update_status set_status add_project_member insert_project_member insert_member
    map_invitation status_from_string status_to_string role_from_string to_string exec upsert lit
    ◌==◌
accepted_first = refl

accept_sound_example :
    let v = (accept (invitation_service plain) notice 9 first bob running).1 in
    (r : InvitationRow) × (pending_row first bob running.db.tables.invitations ≡ some r)
    × IsAnswered first v.db.tables
    × (v.sent ≡ running.sent ++ accepted_notice notice r.from_user_id 9 ∷ [])
accept_sound_example = accept_sound plain notice 9 first bob running accepted_first

abbrev attempts : List Attempt
attempts = accepting notice 11 alice ∷ rejecting bob ∷ accepting notice 12 bob ∷ []

accept_once_example :
    All
      (λ report. report ≡ false)
      (reports plain first attempts
        (accept (invitation_service plain) notice 9 first bob running).1)
accept_once_example = accept_once plain notice 9 first bob running attempts accepted_first

abbrev second : Uuid
second = b'j' ∷ []

other : backend_dev ≢ admin
other e = absurd (ground arith)

unused : has_invitation office second ≡ false
unfolding ◌==◌
unused = refl

send_invitation-listed_example :
    (t' : Tables) × (send_invitation
        (invitation_service plain)
        second
        notice
        9
        alice
        bob
        shop
        backend_dev
        (record { db = record { tables = office; outages = [] }; sent = [] })
      ≡ (
        second,
        record {
          db = record { tables = t'; outages = [] };
          sent = [] ++ received_notice notice bob 9 ∷ [];
        },
      ))
    × (find_if
          (λ i. i.id == second)
          (get_pending_for_user
            (invitation_service plain)
            bob
            (record { db = record { tables = t'; outages = [] }; sent = [] })).0
        ≡ some (stored plain second notice 9 alice bob shop backend_dev office))
send_invitation-listed_example =
    send_invitation-listed plain second notice 9 alice bob shop backend_dev office [] alice_known
      bob_known shop_known other unused refl
