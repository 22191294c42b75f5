-- ===== src/Services/Invitations/Sending.antt =====
-- What sending an invitation does, over the PostgreSQL repositories.
use mathlib.Core.Option
use nexustal.Common.{
  ◌≡◌, refl, ap, ◌∙◌, ◌≢◌, Bool, true, false, ◌&&◌, ◌||◌, none, some, List, [], ◌∷◌, ◌++◌, arith,
  lit, ◌==◌, is_empty, eq_refl, find_if, find_if-any, any-order_desc, All-order_desc, any-select,
  any-append, All-append, find_if_unique, any, All, All-select,
}
use nexustal.Domain.Identity.{Uuid, Timestamp, UserRole, admin, pending, Invitation, Notification}
use nexustal.Domain.Capabilities.Laws.{role_from_string-to_string}
use nexustal.Storage.{Tables, Database, InvitationRow, exec, has_user, has_project}
use nexustal.Storage.Execution.{exec-Executed, exec-refused}
use nexustal.Storage.Members.Laws.{allowed_role-to_string, allowed_role-admin}
use nexustal.Storage.Users.{Collation, find_user_by_id}
use nexustal.Storage.Invitations.{
  is_pending_for, map_invitation, select_pending, has_invitation, row_of, insert_invitation,
  create_invitation, find_pending_for_user, status_to_string,
}
use nexustal.Storage.Invitations.Pending.{
  pending_row, find_if-map_invitations, allowed_status-to_string, status_from_string-to_string,
}
use nexustal.Services.Engine.{World, invitation_service}
use nexustal.Services.Invitations.{
  both_known, send_invitation, new_invitation, received_notice, get_pending_for_user,
}

looking-tables : (id : Uuid) (db : Database) → (find_user_by_id id db).1.tables ≡ db.tables
unfolding find_user_by_id
looking-tables id db =
    ground (arith, exec-Executed (λ (t : Tables). some (find_if (λ u. u.id == id) t.users, t)) db)

-- A table to which the row of an invitation has been added.
abbrev with_row : InvitationRow → Tables → Tables
with_row row t = record t { invitations = t.invitations ++ row ∷ [] }

other_rows :
    (id : Uuid) (row : InvitationRow) (rows : List InvitationRow)
    → any (λ r. r.id == id) rows ≡ false
    → All (λ r. (r.id == id) ≡ true → r ≡ row) rows
other_rows id row [] h = tt
other_rows id row (r ∷ rows) h = ((λ e. cc (e, h)), other_rows id row rows (ground arith))

-- A new row that is pending for a user is the one that is found for its identifier.
pending_row-with_row :
    (user_id : Uuid) (row : InvitationRow) (t : Tables)
    → is_pending_for user_id row ≡ true
    → has_invitation t row.id ≡ false
    → pending_row row.id user_id (with_row row t).invitations ≡ some row
unfolding pending_row
pending_row-with_row user_id row t h new =
    find_if_unique (λ r. r.id == row.id) row _
      (All-order_desc (λ r. (r.id == row.id) ≡ true → r ≡ row) (λ r. r.created_at) _
        (All-select (λ r. (r.id == row.id) ≡ true → r ≡ row) (is_pending_for user_id) _
          (All-append (λ r. (r.id == row.id) ≡ true → r ≡ row) t.invitations (row ∷ [])
            (other_rows row.id row t.invitations new) ((λ e. refl), tt))))
      (any-order_desc (λ r. r.id == row.id) (λ r. r.created_at) _
        ∙ any-select (is_pending_for user_id) (λ r. r.id == row.id) _
        ∙ any-append (λ r. is_pending_for user_id r && r.id == row.id) t.invitations (row ∷ [])
        ∙ last_one (any (λ r. is_pending_for user_id r && r.id == row.id) t.invitations))
  where
    last_one :
        (b : Bool) → (b || ((is_pending_for user_id row && row.id == row.id) || false)) ≡ true
    last_one b = ground (arith, eq_refl row.id)

module _ (collation : Collation) (id notice_id : Uuid) (now : Timestamp)
    (from_user to_user project_id : Uuid) where
  both_known-keeps :
      (w : World)
      → ((both_known (invitation_service collation) from_user to_user w).1.db.tables ≡ w.db.tables)
        × ((both_known (invitation_service collation) from_user to_user w).1.sent ≡ w.sent)
  unfolding both_known
  both_known-keeps w = ground (
    arith,
    looking-tables from_user w.db,
    looking-tables to_user (find_user_by_id from_user w.db).1,
  )

  insert_invitation-admin :
      (t : Tables)
      → insert_invitation (new_invitation id from_user to_user project_id admin now) t ≡ none
  unfolding insert_invitation
  insert_invitation-admin t = ground (arith, allowed_role-admin)

  -- Nobody can be invited as administrator: whatever the tables hold and whether or not the server
  -- answers, sending such an invitation gives no identifier, and leaves the tables and the
  -- notifications as they were.
  pub send_invitation-admin :
      (w : World)
      → let r =
          send_invitation
            (invitation_service collation)
            id
            notice_id
            now
            from_user
            to_user
            project_id
            admin
            w in
        (r.0 ≡ []) × (r.1.db.tables ≡ w.db.tables) × (r.1.sent ≡ w.sent)
  unfolding send_invitation create_invitation
  send_invitation-admin w =
      let known : World = (both_known (invitation_service collation) from_user to_user w).1 in
      ground (
        arith,
        both_known-keeps w,
        exec-refused (insert_invitation (new_invitation id from_user to_user project_id admin now))
            known.db (insert_invitation-admin known.db.tables),
      )

  -- The invitation as it will be read back: created at the time of the server.
  abbrev pub stored : UserRole → Tables → Invitation
  stored role t = record (new_invitation id from_user to_user project_id role now) {
    created_at = t.now;
  }

  both_known-answers :
      (t : Tables) (sent : List Notification)
      → has_user t from_user ≡ true
      → has_user t to_user ≡ true
      → both_known
          (invitation_service collation)
          from_user
          to_user
          (record { db = record { tables = t; outages = [] }; sent = sent })
        ≡ (true, record { db = record { tables = t; outages = [] }; sent = sent })
  unfolding both_known find_user_by_id exec
  both_known-answers t sent from to = ground (
    arith,
    find_if-any (λ u. u.id == from_user) t.users,
    find_if-any (λ u. u.id == to_user) t.users,
  )

  insert_invitation-answers :
      (role : UserRole) (t : Tables)
      → has_user t from_user ≡ true
      → has_user t to_user ≡ true
      → has_project t project_id ≡ true
      → role ≢ admin
      → has_invitation t id ≡ false
      → insert_invitation (new_invitation id from_user to_user project_id role now) t
        ≡ some (id, with_row (row_of (new_invitation id from_user to_user project_id role now) t) t)
  unfolding insert_invitation
  insert_invitation-answers role t from to project other new =
      ground (arith, allowed_role-to_string role other, allowed_status-to_string pending)

  pending_for_addressee :
      (role : UserRole) (t : Tables)
      → is_pending_for to_user (row_of (new_invitation id from_user to_user project_id role now) t)
        ≡ true
  unfolding status_to_string
  pending_for_addressee role t = ground (arith, eq_refl to_user, eq_refl (lit "pending"))

  map_invitation-stored :
      (role : UserRole) (t : Tables)
      → map_invitation (row_of (new_invitation id from_user to_user project_id role now) t)
        ≡ stored role t
  unfolding map_invitation
  map_invitation-stored role t =
      rw (role_from_string-to_string role, status_from_string-to_string pending) refl

  -- While the server answers, an invitation of a known user by a known user to a known project, in
  -- a role other than the administrator's and under an identifier that is new and not empty, is
  -- stored: sending it gives the identifier, the addressee is notified, and the list of the
  -- addressee's pending invitations shows it as it was sent, with the server's time.
  pub send_invitation-listed :
      (role : UserRole) (t : Tables) (sent : List Notification)
      → has_user t from_user ≡ true
      → has_user t to_user ≡ true
      → has_project t project_id ≡ true
      → role ≢ admin
      → has_invitation t id ≡ false
      → is_empty id ≡ false
      → (t' : Tables) × (send_invitation
            (invitation_service collation)
            id
            notice_id
            now
            from_user
            to_user
            project_id
            role
            (record { db = record { tables = t; outages = [] }; sent = sent })
          ≡ (
            id,
            record {
              db = record { tables = t'; outages = [] };
              sent = sent ++ received_notice notice_id to_user now ∷ [];
            },
          ))
        × (find_if
              (λ i. i.id == id)
              (get_pending_for_user
                (invitation_service collation)
                to_user
                (record { db = record { tables = t'; outages = [] }; sent = sent })).0
            ≡ some (stored role t))
  unfolding send_invitation create_invitation get_pending_for_user find_pending_for_user pending_row
      select_pending exec
  send_invitation-listed role t sent from to project other new named =
      let row = row_of (new_invitation id from_user to_user project_id role now) t in
      (
        with_row row t,
        ground (
          arith,
          both_known-answers t sent from to,
          insert_invitation-answers role t from to project other new,
        ),
        find_if-map_invitations id _
            ∙ ap (Option.map map_invitation)
                (pending_row-with_row to_user row t (pending_for_addressee role t) new)
            ∙ ap some (map_invitation-stored role t),
      )
