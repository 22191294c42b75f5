-- ===== src/Http/Invitations.antt =====
-- backend/src/controllers/invitation_controller.cpp.
pub mod Laws
use nexustal.Http.Payloads.{text_at}
use nexustal.Services.Invitations.{
  accept, reject, send_invitation, get_pending_for_user, InvitationService,
}
use nexustal.Http.{outcome, get_header, Request, error, ok, Response, JsonCpp}
use nexustal.Domain.Json.{array, string, cons, object_of, object, nil, Json, Items, JsonLib}
use nexustal.Domain.Identity.{Timestamp, Invitation, Uuid}
use nexustal.Common.{
  ℕ, zero, suc, ◌+◌, ◌-◌, ◌*◌, ◌/◌, ◌%◌, ◌^◌, ◌≤◌, ◌<◌, String, ◌≡◌, refl, sym, ap, ◌∙◌, subst, ◌≢◌,
  ◌↔◌, ◌⊎◌, inl, inr, Bool, true, false, not, ◌&&◌, ◌||◌, Option, none, some, List, [], ◌∷◌, ◌++◌,
  append_assoc, append-nil, arith, ltb, leb, eqb, if◌then◌else◌, Bool-cases, Option-cases, is_some,
  Text, lit, ◌==◌, is_empty, eq_iff, eq_refl, ==-false, length, length-append, find_if, get_elem?,
  modify, take-length, drop-length, take, drop, drop-zero, take-append, drop-append, update_where,
  count_if, count_if-pos, find_if-any, find_if-holds, insert_desc, order_desc, any-insert_desc,
  any-order_desc, All-insert_desc, All-order_desc, find_if-All, any-select, any-false, any_mono,
  any-append, All-append, All-select_self, find_if_unique, any, select, All, All-select, Dict,
  lookup, put, without, lookup-put, lookup-without, Action, ◌>>=◌, ◌>>◌, pure,
}
use nexustal.Domain.Capabilities.{manage_team, has_capability, role_from_string, to_string}

abbrev unavailable : JsonLib → Response
unavailable lib = error lib 503 (lit "invitation service is not configured")

abbrev pub forbidden : JsonLib → Response
forbidden lib = error lib 403 (lit "forbidden")

abbrev bad_request : JsonLib → Text → Response
bad_request lib message = error lib 400 message

-- `value_or("")`
abbrev or_blank : Option Text → Text
or_blank none = []
or_blank (some id) = id

unfoldable pub invitation_to_json : JsonLib → Invitation → Json
invitation_to_json lib i = object (
    object_of lib (
      (lit "id", string i.id)
      ∷ (lit "from_user_id", string i.from_user_id)
      ∷ (lit "to_user_id", string i.to_user_id)
      ∷ (lit "project_id", string (or_blank i.project_id))
      ∷ (lit "team_id", string (or_blank i.team_id))
      ∷ (lit "role", string (to_string i.role))
      ∷ []))

unfoldable pub invitations_to_json : JsonLib → List Invitation → Items
invitations_to_json lib [] = nil
invitations_to_json lib (i ∷ is) = cons (invitation_to_json lib i) (invitations_to_json lib is)

abbrev created_response : JsonLib → Uuid → Response
created_response lib id =
    if is_empty id
    then bad_request lib (lit "unable to create invitation")
    else ok (object (object_of lib ((lit "id", string id) ∷ [])))

-- The texts of an invitation's payload; nothing where JsonCpp throws.
pub record Sent : Type 0 where
  pub to_user_id : Uuid
  pub project_id : Uuid
  pub role : Text

abbrev sent_role : Uuid → Uuid → Option Text → Option Sent
sent_role to_user_id project_id none = none
sent_role to_user_id project_id (some role) =
    some (record { to_user_id = to_user_id; project_id = project_id; role = role })

abbrev sent_project : Uuid → Option Text → Option Text → Option Sent
sent_project to_user_id none role = none
sent_project to_user_id (some project_id) role = sent_role to_user_id project_id role

abbrev sent_user : Option Text → Option Text → Option Text → Option Sent
sent_user none project_id role = none
sent_user (some to_user_id) project_id role = sent_project to_user_id project_id role

module _ {S : Type 0} (lib : JsonLib) (cpp : JsonCpp) (service : Option (InvitationService S)) where
  unfoldable pub read_sent : Json → Option Sent
  read_sent json =
      sent_user (text_at lib cpp json (lit "to_user_id")) (text_at lib cpp json (lit "project_id"))
        (text_at lib cpp json (lit "role"))

  abbrev send_sent :
      (id notice_id : Uuid) (now : Timestamp)
      → InvitationService S
      → Request
      → Option Sent
      → Action S (Option Response)
  send_sent id notice_id now service request none = pure none
  send_sent id notice_id now service request (some sent) = do
    created_id ←
        send_invitation service id notice_id now (get_header (lit "x-user-id") request)
          sent.to_user_id sent.project_id (role_from_string sent.role)
    pure (some (created_response lib created_id))

  abbrev send_body :
      (id notice_id : Uuid) (now : Timestamp)
      → InvitationService S
      → Request
      → Option Json
      → Action S (Option Response)
  send_body id notice_id now service request none =
      pure (some (bad_request lib (lit "invalid json")))
  send_body id notice_id now service request (some json) =
      send_sent id notice_id now service request (read_sent json)

  abbrev pub send_allowed :
      (id notice_id : Uuid) (now : Timestamp)
      → InvitationService S
      → Request
      → Bool
      → Action S (Option Response)
  send_allowed id notice_id now service request false = pure (some (forbidden lib))
  send_allowed id notice_id now service request true =
      send_body id notice_id now service request request.json

  unfoldable pub send :
      (id notice_id : Uuid) (now : Timestamp) → Request → Action S (Option Response)
  send id notice_id now request = elim service [
    | none ↦ pure (some (unavailable lib))
    | some service ↦
        send_allowed id notice_id now service request
          (has_capability (role_from_string (get_header (lit "x-user-role") request)) manage_team)
  ]

  unfoldable pub get_pending : Request → Action S Response
  get_pending request = elim service [
    | none ↦ pure (unavailable lib)
    | some service ↦ do
      found ← get_pending_for_user service (get_header (lit "x-user-id") request)
      pure (ok (array (invitations_to_json lib found)))
  ]

  unfoldable pub accept_route :
      (notice_id : Uuid) (now : Timestamp) → Uuid → Request → Action S Response
  accept_route notice_id now invitation_id request = elim service [
    | none ↦ pure (unavailable lib)
    | some service ↦ do
      success ← accept service notice_id now invitation_id (get_header (lit "x-user-id") request)
      pure (outcome lib 404 success)
  ]

  unfoldable pub reject_route : Uuid → Request → Action S Response
  reject_route invitation_id request = elim service [
    | none ↦ pure (unavailable lib)
    | some service ↦ do
      success ← reject service invitation_id (get_header (lit "x-user-id") request)
      pure (outcome lib 404 success)
  ]
