-- ===== src/Http/Endpoints/Laws.antt =====
-- Who may change endpoints through the routes.
use nexustal.Domain.Capabilities.{view_endpoints, edit_endpoints}
use nexustal.Services.Roles.{allows}
use nexustal.Domain.Identity.{Uuid}
use nexustal.Http.{Request, JsonCpp}
use nexustal.Domain.Json.{Json, JsonLib}
use nexustal.Domain.Endpoint.{Endpoint}
use nexustal.Services.Endpoints.{get_endpoint, EndpointService}
use nexustal.Services.Endpoints.Access.{
  publishing, deleting, project_of, updating, getting, project_of_summary, unauthorised_unchanged,
  found_keeps, may, Found-cases, creating, perform, listing, Access, Call,
}
use nexustal.Http.Endpoints.{
  publish_route, publish, remove_route, remove, update, update_current, update_body, create_body,
  create, user_of, update_parsed, get_route, create_parsed, list, update_route, create_route,
  handle, list_route, Route, get,
}
use nexustal.Common.{◌≡◌, refl, ap, ◌∙◌, inl, inr, Bool, false, Option, none, some, arith}

-- The call of the service whose right a route needs; the endpoint that is sent plays no part.
abbrev pub call_of : Route → Endpoint → Call
call_of (list_route project_id) e = listing project_id
call_of (create_route project_id) e = creating project_id e
call_of (get_route endpoint_id) e = getting endpoint_id
call_of (update_route endpoint_id) e = updating endpoint_id e
call_of (remove_route endpoint_id) e = deleting endpoint_id
call_of (publish_route endpoint_id) e = publishing endpoint_id

module _ {S T : Type 0} {service : EndpointService S} (access : Access S T service) (lib : JsonLib)
    (cpp : JsonCpp) where
  open access use {content, summary, role_at}

  -- Whether the stored role of the request's user allows the call that a route makes.
  abbrev pub may_request : Route → Request → Endpoint → S → Bool
  may_request route request e w =
      may access (user_of request) (call_of route e) w (project_of access (call_of route e) w)

  create_parsed_unchanged :
      (project_id : Uuid) (request : Request) (blank : Endpoint) (o : Option Endpoint) (w : S)
      → may_request (create_route project_id) request blank w ≡ false
      → content (create_parsed lib cpp service project_id request o w).1 ≡ content w
  unfolding perform
  create_parsed_unchanged project_id request blank none w h = refl
  create_parsed_unchanged project_id request blank (some e) w h =
      unauthorised_unchanged access (user_of request) (creating project_id e) w h

  create_body_unchanged :
      (project_id : Uuid) (request : Request) (blank : Endpoint) (o : Option Json) (w : S)
      → may_request (create_route project_id) request blank w ≡ false
      → content (create_body lib cpp service project_id request o w).1 ≡ content w
  create_body_unchanged project_id request blank none w h = refl
  create_body_unchanged project_id request blank (some json) w h =
      create_parsed_unchanged project_id request blank _ w h

  update_parsed_unchanged :
      (id : Uuid) (request : Request) (blank : Endpoint) (o : Option Endpoint) (w : S)
      → may_request (update_route id) request blank w ≡ false
      → content (update_parsed lib cpp service id request o w).1 ≡ content w
  unfolding perform
  update_parsed_unchanged id request blank none w h = refl
  update_parsed_unchanged id request blank (some e) w h =
      unauthorised_unchanged access (user_of request) (updating id e) w h

  update_body_unchanged :
      (id : Uuid) (request : Request) (blank current : Endpoint) (o : Option Json) (w : S)
      → may_request (update_route id) request blank w ≡ false
      → content (update_body lib cpp service id request current o w).1 ≡ content w
  update_body_unchanged id request blank current none w h = refl
  update_body_unchanged id request blank current (some json) w h =
      update_parsed_unchanged id request blank _ w h

  get_endpoint-keeps :
      (id user_id : Uuid) (w : S) → content (get_endpoint service id user_id w).1 ≡ content w
  unfolding get_endpoint
  get_endpoint-keeps id user_id w = elim (Found-cases (service.repository.find_by_id id w).0) [
    | inl missing ↦ ground (arith, missing, access.find_keeps id w)
    | inr (e, found) ↦
        ground (arith, found, found_keeps access user_id id e.project_id view_endpoints w)
  ]

  update_current_unchanged :
      (id : Uuid) (request : Request) (blank : Endpoint) (o : Option (Option Endpoint)) (w : S)
      → may_request (update_route id) request blank w ≡ false
      → content (update_current lib cpp service id request o w).1 ≡ content w
  update_current_unchanged id request blank none w h = refl
  update_current_unchanged id request blank (some none) w h = refl
  update_current_unchanged id request blank (some (some current)) w h =
      update_body_unchanged id request blank current request.json w h

  abbrev may_edit : Uuid → T → Option Uuid → Bool
  may_edit user_id c none = false
  may_edit user_id c (some project_id) = allows edit_endpoints (role_at c user_id project_id)

  may_update-content :
      (id : Uuid) (request : Request) (blank : Endpoint) (v w : S)
      → content v ≡ content w
      → may_request (update_route id) request blank v
        ≡ may_request (update_route id) request blank w
  may_update-content id request blank v w same =
      ap (λ c. may_edit (user_of request) c (project_of_summary access (summary c id))) same

  -- A request on any route of the endpoint controller leaves all that is stored, whatever its body,
  -- if the stored role of the user whom its headers name lacks the right for the route in the
  -- project. The right of a route is the same for each endpoint `blank` that is sent.
  pub handle_unauthorised :
      (route : Route) (request : Request) (blank : Endpoint) (w : S)
      → may_request route request blank w ≡ false
      → content (handle lib cpp service route request w).1 ≡ content w
  unfolding handle list create get update remove publish perform
  handle_unauthorised (list_route p) request blank w h =
      unauthorised_unchanged access (user_of request) (listing p) w h
  handle_unauthorised (get_route id) request blank w h = get_endpoint-keeps id (user_of request) w
  handle_unauthorised (remove_route id) request blank w h =
      unauthorised_unchanged access (user_of request) (deleting id) w h
  handle_unauthorised (publish_route id) request blank w h =
      unauthorised_unchanged access (user_of request) (publishing id) w h
  handle_unauthorised (create_route p) request blank w h =
      create_body_unchanged p request blank request.json w h
  handle_unauthorised (update_route id) request blank w h =
      let same = get_endpoint-keeps id (user_of request) w in
      update_current_unchanged id request blank (get_endpoint service id (user_of request) w).0
        (get_endpoint service id (user_of request) w).1
        (may_update-content id request blank _ w same ∙ h)
      ∙ same
