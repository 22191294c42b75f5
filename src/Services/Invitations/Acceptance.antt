-- ===== src/Services/Invitations/Acceptance.antt =====
-- What accepting an invitation does, over the PostgreSQL repositories.
use mathlib.Core.Option
use nexustal.Common.{
  All, Action, Bool, false, ℕ, ◌≡◌, refl, subst, ◌⊎◌, inl, inr, true, Option, none, some, List, [],
  ◌∷◌, ◌++◌, arith, Option-cases, Text, ◌==◌, find_if, order_desc, select,
}
use nexustal.Domain.Identity.{Uuid, Timestamp, UserRole, pending, accepted, Invitation}
use nexustal.Domain.Capabilities.{to_string}
use nexustal.Storage.{MemberRow, Tables, Database, InvitationRow}
use nexustal.Storage.Execution.{exec-Executed, exec-keeps}
use nexustal.Storage.Members.{
  add_team_member, add_project_member, insert_member, insert_project_member,
}
use nexustal.Storage.Users.{Collation}
use nexustal.Storage.Invitations.{
  is_pending_for, map_invitation, map_invitations, select_pending, find_pending_for_user,
  update_status,
}
use nexustal.Storage.Invitations.Pending.{
  IsAnswered-pending_row, pending_row, find_if-map_invitations, IsAnswered,
  update_status-IsAnswered,
}
use nexustal.Services.Engine.{teams, projects, World, invitation_service}
use nexustal.Services.Invitations.{
  reject, accept, join_team, join_project, accepted_notice, persist_membership, accept_pending,
}

-- The listing finds a pending row, or nothing where the server refuses to answer.
listed :
    (id user_id : Uuid) (db : Database)
    → (find_if (λ i. i.id == id) (find_pending_for_user user_id db).0 ≡ none)
      ⊎ (find_if (λ i. i.id == id) (find_pending_for_user user_id db).0
          ≡ Option.map map_invitation (pending_row id user_id db.tables.invitations))
unfolding find_pending_for_user select_pending pending_row
listed id user_id db = elim (exec-Executed (select_pending user_id) db) [
  | inl (e, _) ↦ inl (rw e refl)
  | inr (rows, t, e, found, _) ↦ inr (
      rw found (
        subst
          (λ (rs : List InvitationRow).
            find_if (λ i. i.id == id) (map_invitations rs)
            ≡ Option.map map_invitation (pending_row id user_id db.tables.invitations))
          (ground arith)
          (find_if-map_invitations id (
            order_desc (λ r. r.created_at)
              (select (is_pending_for user_id) db.tables.invitations)))))
]

listing-tables :
    (user_id : Uuid) (db : Database) → (find_pending_for_user user_id db).1.tables ≡ db.tables
unfolding find_pending_for_user select_pending
listing-tables user_id db = ground (arith, exec-Executed (select_pending user_id) db)

-- Adding a member leaves the invitations.
insert_member-invitations :
    (row : MemberRow) (t t' : Tables) (n : ℕ)
    → insert_member row t ≡ some (n, t')
    → t'.invitations ≡ t.invitations
unfolding insert_member
insert_member-invitations row t t' n e = ground arith

insert_project_member-invitations :
    (project_id user_id : Uuid) (role : Text) (t t' : Tables) (n : ℕ)
    → insert_project_member project_id user_id role t ≡ some (n, t')
    → t'.invitations ≡ t.invitations
unfolding insert_project_member
insert_project_member-invitations project_id user_id role t t' n e =
    elim (Option-cases (find_if (λ p. p.id == project_id) t.projects)) [
      | inl missing ↦ ground arith
      | inr (p, found) ↦
          insert_member-invitations (record { team_id = p.team_id; user_id = user_id; role = role })
            t t' n (rw (found, insert_project_member) at e)
    ]

-- A membership step leaves the invitations and the notifications.
abbrev Keeps : World → World → Type 0
Keeps w v = (v.db.tables.invitations ≡ w.db.tables.invitations) × (v.sent ≡ w.sent)

join_project-Keeps :
    (role : UserRole) (user_id : Uuid) (o : Option Uuid) (w : World)
    → Keeps w (join_project role user_id o (some projects) w).1
unfolding join_project add_project_member
join_project-Keeps role user_id none w = (refl, refl)
join_project-Keeps role user_id (some id) w = (
  exec-keeps (λ t. t.invitations ≡ w.db.tables.invitations)
      (insert_project_member id user_id (to_string role)) w.db
      (λ n t e. insert_project_member-invitations id user_id (to_string role) w.db.tables t n e)
      refl,
  refl,
)

join_team-Keeps :
    (role : UserRole) (user_id : Uuid) (o p : Option Uuid) (w : World)
    → Keeps w
        (join_team role user_id o (some teams) (join_project role user_id p (some projects)) w).1
unfolding join_team add_team_member
join_team-Keeps role user_id none p w = join_project-Keeps role user_id p w
join_team-Keeps role user_id (some id) p w = (
  exec-keeps (λ t. t.invitations ≡ w.db.tables.invitations)
      (insert_member (record { team_id = id; user_id = user_id; role = to_string role })) w.db
      (λ n t e. insert_member-invitations _ w.db.tables t n e) refl,
  refl,
)

module _ (collation : Collation) (notice_id : Uuid) (now : Timestamp) (id user_id : Uuid) where
  persist-Keeps :
      (i : Invitation) (w : World)
      → Keeps w (persist_membership (invitation_service collation) i user_id w).1
  unfolding persist_membership
  persist-Keeps i w = join_team-Keeps i.role user_id i.team_id i.project_id w

  accept_pending-true :
      (i : Invitation) (w : World)
      → (accept_pending (invitation_service collation) notice_id now id user_id i w).0 ≡ true
      → let v = (accept_pending (invitation_service collation) notice_id now id user_id i w).1 in
        IsAnswered id v.db.tables
        × (v.sent ≡ w.sent ++ accepted_notice notice_id i.from_user_id now ∷ [])
  unfolding accept_pending
  accept_pending-true i w h =
      let updated : World = record w { db = (update_status id accepted w.db).1 } in
      ground (
        arith,
        update_status-IsAnswered id accepted w.db (λ (e : accepted ≡ pending). cc),
        persist-Keeps i updated,
      )

  -- An acceptance that reports success found a pending invitation of that identifier addressed to
  -- the user, leaves no pending invitation of that identifier, and has sent one notification, to
  -- the sender of the invitation, whether or not the server refuses any statement.
  pub accept_sound :
      (w : World)
      → (accept (invitation_service collation) notice_id now id user_id w).0 ≡ true
      → let v = (accept (invitation_service collation) notice_id now id user_id w).1 in
        (r : InvitationRow) × (pending_row id user_id w.db.tables.invitations ≡ some r)
        × IsAnswered id v.db.tables
        × (v.sent ≡ w.sent ++ accepted_notice notice_id r.from_user_id now ∷ [])
  unfolding accept map_invitation
  accept_sound w h = elim (Option-cases (pending_row id user_id w.db.tables.invitations)) [
    | inl missing ↦ absurd (ground (arith, listed id user_id w.db, missing))
    | inr (r, found) ↦
        let reading : World = record w { db = (find_pending_for_user user_id w.db).1 } in
        let facts =
          λ (k : (accept_pending (invitation_service collation) notice_id now id user_id
                (map_invitation r) reading).0
              ≡ true).
            accept_pending-true (map_invitation r) reading k in
        (
          r,
          found,
          ground (arith, listed id user_id w.db, found, facts),
          ground (arith, listed id user_id w.db, found, facts),
        )
  ]

  -- Where nothing of the identifier is pending, accepting and rejecting report failure, and
  -- nothing of it becomes pending.
  pub IsAnswered-refused :
      (w : World)
      → IsAnswered id w.db.tables
      → (((accept (invitation_service collation) notice_id now id user_id w).0 ≡ false)
          × IsAnswered id
              (accept (invitation_service collation) notice_id now id user_id w).1.db.tables)
        × (((reject (invitation_service collation) id user_id w).0 ≡ false)
            × IsAnswered id (reject (invitation_service collation) id user_id w).1.db.tables)
  unfolding accept reject
  IsAnswered-refused w h = ground (
    arith,
    listed id user_id w.db,
    IsAnswered-pending_row id user_id w.db.tables h,
    listing-tables user_id w.db,
  )

-- An attempt of a user to answer an invitation.
pub data Attempt : Type 0 where
  accepting : (notice_id : Uuid) → Timestamp → (user_id : Uuid) → Attempt
  rejecting : (user_id : Uuid) → Attempt

module _ (collation : Collation) (id : Uuid) where
  abbrev pub attempt : Attempt → Action World Bool
  attempt (accepting notice_id now user_id) =
      accept (invitation_service collation) notice_id now id user_id
  attempt (rejecting user_id) = reject (invitation_service collation) id user_id

  -- What attempts after one another report.
  unfoldable pub reports : List Attempt → World → List Bool
  reports [] w = []
  reports (a ∷ attempts) w = let (report, v) = attempt a w in report ∷ reports attempts v

  attempt-IsAnswered :
      (a : Attempt) (w : World)
      → IsAnswered id w.db.tables
      → ((attempt a w).0 ≡ false) × IsAnswered id (attempt a w).1.db.tables
  attempt-IsAnswered (accepting notice_id now user_id) w h =
      (IsAnswered-refused collation notice_id now id user_id w h).0
  attempt-IsAnswered (rejecting user_id) w h = (IsAnswered-refused collation [] 0 id user_id w h).1

  reports-IsAnswered :
      (attempts : List Attempt) (w : World)
      → IsAnswered id w.db.tables
      → All (λ report. report ≡ false) (reports attempts w)
  unfolding reports
  reports-IsAnswered [] w h = tt
  reports-IsAnswered (a ∷ attempts) w h =
      let (refused, answered) = attempt-IsAnswered a w h in
      (refused, reports-IsAnswered attempts (attempt a w).1 answered)

-- An invitation is answered once: after an acceptance that reports success, all attempts that
-- follow to accept or to reject it, any number of them, in any order and by any users, report
-- failure, whether or not the server refuses any statement.
pub accept_once :
    (collation : Collation) (notice_id : Uuid) (now : Timestamp) (id user_id : Uuid) (w : World)
    (attempts : List Attempt)
    → (accept (invitation_service collation) notice_id now id user_id w).0 ≡ true
    → All
        (λ report. report ≡ false)
        (reports collation id attempts
          (accept (invitation_service collation) notice_id now id user_id w).1)
accept_once collation notice_id now id user_id w attempts h =
    reports-IsAnswered collation id attempts _
      ((accept_sound collation notice_id now id user_id w h).2)
