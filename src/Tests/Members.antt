-- ===== src/Tests/Members.antt =====
-- Roles in the office.
use nexustal.Services.Users.Creation.{create_user_checked-found, recorded}
use nexustal.Storage.Users.{find_user_by_username, user_repository}
use nexustal.Services.Users.{failure, create_user_checked}
use nexustal.Services.Invitations.Sending.{send_invitation-admin}
use nexustal.Services.Engine.{invitation_service}
use nexustal.Tests.Data.{
  user_named, bob_known, team_known, shop_found, shop_row, running, notice, first, plain, bob,
  alice, office, core, shop,
}
use nexustal.Storage.Members.Laws.{add_project_member-role_of, has_team_id, role_of, Keyed}
use nexustal.Storage.{Tables, Database}
use nexustal.Services.Invitations.{send_invitation}
use nexustal.Storage.Members.{add_project_member}
use nexustal.Domain.Identity.{User, Uuid, admin, viewer}
use nexustal.Storage.Columns.{characters}
use nexustal.Common.{
  ◌≤◌, any, is_empty, none, ◌≡◌, refl, ◌≢◌, true, false, ◌&&◌, some, [], ◌∷◌, arith, if◌then◌else◌,
  lit, ◌==◌, find_if,
}

no_admin : viewer ≢ admin
no_admin e = absurd (ground arith)

keyed : Keyed office.projects
keyed = (tt, tt)

add_project_member-role_of_example :
    (t' : Tables) × (add_project_member shop bob viewer (record { tables = office; outages = [] })
      ≡ (true, record { tables = t'; outages = [] }))
    × ((project' user' : Uuid)
        → role_of t' project' user' ≡ (
            if bob == user' && has_team_id core (find_if (λ q. q.id == project') office.projects)
            then some viewer
            else role_of office project' user'))
add_project_member-role_of_example =
    add_project_member-role_of shop bob viewer office shop_row shop_found team_known bob_known
      no_admin

-- A database whose only member is a back-end developer.
abbrev staffed : Database
staffed = record {
  tables = record office {
    members = record { team_id = core; user_id = bob; role = lit "backend_dev" } ∷ [];
  };
  outages = [];
}

send_invitation-admin_example :
    let r =
      send_invitation (invitation_service plain) first notice 9 alice bob shop admin running in
    (r.0 ≡ []) × (r.1.db.tables ≡ running.db.tables) × (r.1.sent ≡ running.sent)
send_invitation-admin_example = send_invitation-admin plain first notice 9 alice bob shop running

abbrev carol : User
carol = record (user_named (b'c' ∷ [])) { password_hash = lit "hash" }

known : is_empty carol.password_hash ≡ false
unfolding lit
known = refl

new : any (λ u. u.id == carol.id) office.users ≡ false
unfolding ◌==◌
new = refl

unused : find_if (λ u. u.username == carol.username) office.users ≡ none
unfolding ◌==◌
unused = refl

short : characters carol.username ≤ 120
unfolding characters
short = omega arith

hash_short : characters carol.password_hash ≤ 255
unfolding characters lit
hash_short = omega arith

create_user_checked-found_example :
    (t' : Tables) × (create_user_checked
        (user_repository plain (b'f' ∷ []) (b'v' ∷ []))
        carol
        (record { tables = office; outages = [] })
      ≡ (
        some (record { success = true; message = lit "user created"; created_user_id = b'c' ∷ [] }),
        record { tables = t'; outages = [] },
      ))
    × ((find_user_by_username (b'c' ∷ []) (record { tables = t'; outages = [] })).0
        ≡ some (recorded (b'v' ∷ []) 7 carol))
    × (create_user_checked
          (user_repository plain (b'f' ∷ []) (b'v' ∷ []))
          carol
          (record { tables = t'; outages = [] })
        ≡ (some (failure (lit "username already exists")), record { tables = t'; outages = [] }))
create_user_checked-found_example =
    create_user_checked-found plain (b'f' ∷ []) (b'v' ∷ []) carol carol office refl refl known short
      hash_short new unused refl known
