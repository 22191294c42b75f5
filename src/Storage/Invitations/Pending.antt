-- ===== src/Storage/Invitations/Pending.antt =====
-- What the list of pending invitations holds, and what an answer does to it.
use mathlib.Core.Option
use nexustal.Common.{
  any_mono, ◌≡◌, refl, sym, ap, ◌∙◌, ◌≢◌, ◌⊎◌, inl, inr, Bool, true, false, ◌&&◌, Option, none,
  some, List, [], ◌∷◌, arith, Bool-cases, is_some, Text, lit, ◌==◌, find_if, update_where,
  count_if-pos, find_if-any, find_if-holds, order_desc, any-order_desc, All-order_desc, find_if-All,
  any-select, any-false, All-select_self, any, select,
}
use nexustal.Domain.Identity.{Uuid, InvitationStatus, pending, accepted, rejected}
use nexustal.Storage.{Tables, Database, InvitationRow, exec, allowed_status}
use nexustal.Storage.Execution.{exec-Executed}
use nexustal.Storage.Invitations.{
  status_to_string, status_from_string, is_pending_for, map_invitation, map_invitations, answered,
  set_status, update_status,
}

-- Reading back the stored status of an invitation gives that status.
pub status_from_string-to_string :
    (s : InvitationStatus) → status_from_string (status_to_string s) ≡ s
unfolding status_from_string status_to_string lit ◌==◌
status_from_string-to_string pending = refl
status_from_string-to_string accepted = refl
status_from_string-to_string rejected = refl

pub allowed_status-to_string : (s : InvitationStatus) → allowed_status (status_to_string s) ≡ true
unfolding status_to_string lit ◌==◌
allowed_status-to_string pending = refl
allowed_status-to_string accepted = refl
allowed_status-to_string rejected = refl

-- The row of an identifier among those that `findPendingForUser` selects.
unfoldable pub pending_row : Uuid → Uuid → List InvitationRow → Option InvitationRow
pending_row id user_id rows =
    find_if (λ r. r.id == id)
      (order_desc (λ r. r.created_at) (select (is_pending_for user_id) rows))

pub find_if-map_invitations :
    (id : Uuid) (rows : List InvitationRow)
    → find_if (λ i. i.id == id) (map_invitations rows)
      ≡ Option.map map_invitation (find_if (λ r. r.id == id) rows)
unfolding map_invitation
find_if-map_invitations id [] = refl
find_if-map_invitations id (r ∷ rows) = ground (arith, find_if-map_invitations id rows)

-- A row that is found has the identifier, is pending, is addressed to the user, and stands in the
-- table.
pub pending_row_sound :
    (id user_id : Uuid) (rows : List InvitationRow) (r : InvitationRow)
    → pending_row id user_id rows ≡ some r
    → ((r.id == id) ≡ true)
      × (is_pending_for user_id r ≡ true)
      × (any (λ q. q.id == id) rows ≡ true)
unfolding pending_row
pending_row_sound id user_id rows r e =
    let rows' =
      order_desc (λ (q : InvitationRow). q.created_at) (select (is_pending_for user_id) rows) in
    let found : any (λ q. q.id == id) rows' ≡ true =
      sym (find_if-any (λ q. q.id == id) rows') ∙ ap is_some e in
    (
      find_if-holds (λ q. q.id == id) rows' r e,
      find_if-All (λ q. is_pending_for user_id q ≡ true) (λ q. q.id == id) rows'
          (All-order_desc (λ q. is_pending_for user_id q ≡ true) (λ q. q.created_at) _
            (All-select_self (is_pending_for user_id) rows))
          e,
      any_mono (λ q. is_pending_for user_id q && q.id == id) (λ q. q.id == id) rows
          (λ q h. ground arith)
          (sym (
              any-order_desc (λ q. q.id == id) (λ q. q.created_at)
                (select (is_pending_for user_id) rows)
              ∙ any-select (is_pending_for user_id) (λ q. q.id == id) rows)
            ∙ found),
    )

-- Nothing of that identifier is pending.
abbrev pub IsAnswered : Uuid → Tables → Type 0
IsAnswered id t = any (λ r. r.id == id && r.status == lit "pending") t.invitations ≡ false

pub IsAnswered-pending_row :
    (id user_id : Uuid) (t : Tables) → IsAnswered id t → pending_row id user_id t.invitations ≡ none
unfolding pending_row
IsAnswered-pending_row id user_id t h =
    any-false (λ r. r.id == id) _
      (any-order_desc (λ r. r.id == id) (λ r. r.created_at)
          (select (is_pending_for user_id) t.invitations)
        ∙ any-select (is_pending_for user_id) (λ r. r.id == id) t.invitations
        ∙ none_pending
            (Bool-cases (any (λ r. is_pending_for user_id r && r.id == id) t.invitations)))
  where
    none_pending :
        (any (λ r. is_pending_for user_id r && r.id == id) t.invitations ≡ true)
          ⊎ (any (λ r. is_pending_for user_id r && r.id == id) t.invitations ≡ false)
        → any (λ r. is_pending_for user_id r && r.id == id) t.invitations ≡ false
    none_pending (inl some_row) = cc (
        any_mono (λ r. is_pending_for user_id r && r.id == id)
          (λ r. r.id == id && r.status == lit "pending") t.invitations (λ r k. ground arith)
          some_row)
    none_pending (inr e) = e

pub any-answered :
    (id : Uuid) (status : Text) (t : Tables) (rows : List InvitationRow)
    → (status == lit "pending") ≡ false
    → any
        (λ r. r.id == id && r.status == lit "pending")
        (update_where (λ r. r.id == id) (answered status t) rows)
      ≡ false
any-answered id status t [] h = refl
any-answered id status t (r ∷ rows) h = ground (arith, any-answered id status t rows h)

names_pending : (s : InvitationStatus) → s ≢ pending → (status_to_string s == lit "pending") ≡ false
unfolding status_to_string lit ◌==◌
names_pending pending h = absurd (h refl)
names_pending accepted h = refl
names_pending rejected h = refl

-- A status written with success: the tables afterwards, and that the identifier was there.
pub update_status-true :
    (id : Uuid) (s : InvitationStatus) (db : Database)
    → (update_status id s db).0 ≡ true
    → ((update_status id s db).1.tables ≡ (record (db.tables) {
      invitations =
          update_where
            (λ r. r.id == id)
            (answered (status_to_string s) db.tables)
            db.tables.invitations;
    }))
      × (any (λ r. r.id == id) db.tables.invitations ≡ true)
unfolding update_status set_status
update_status-true id s db h = ground (
  arith,
  exec-Executed (set_status (status_to_string s) id) db,
  allowed_status-to_string s,
  count_if-pos (λ r. r.id == id) db.tables.invitations,
)

-- An invitation that has been answered with success is pending for nobody.
pub update_status-IsAnswered :
    (id : Uuid) (s : InvitationStatus) (db : Database)
    → s ≢ pending
    → (update_status id s db).0 ≡ true
    → IsAnswered id (update_status id s db).1.tables
update_status-IsAnswered id s db n h =
    rw ((update_status-true id s db h).0)
      (any-answered id (status_to_string s) db.tables db.tables.invitations (names_pending s n))

-- While the server answers, a status is written for any identifier in the table.
pub update_status-answers :
    (id : Uuid) (s : InvitationStatus) (t : Tables) (o : List Bool)
    → any (λ r. r.id == id) t.invitations ≡ true
    → update_status id s (record { tables = t; outages = false ∷ o }) ≡ (
      true,
      record {
        tables = record t {
          invitations =
              update_where (λ r. r.id == id) (answered (status_to_string s) t) t.invitations;
        };
        outages = o;
      },
    )
unfolding update_status set_status exec
update_status-answers id s t o h =
    ground (arith, allowed_status-to_string s, count_if-pos (λ r. r.id == id) t.invitations)
