-- ===== src/Http/Endpoints.antt =====
-- The handlers of backend/src/controllers/endpoint_controller.cpp.
pub mod Laws
pub mod Guarded
use nexustal.Http.Payloads.{parse_endpoint_payload, endpoint_to_json}
use nexustal.Domain.Endpoint.{Endpoint}
use nexustal.Services.Endpoints.{
  get_endpoint, publish_endpoint, delete_endpoint, get_project_endpoints, update_endpoint,
  create_endpoint, EndpointService,
}
use nexustal.Domain.Identity.{Uuid}
use nexustal.Http.{ok, outcome, error, JsonCpp, Response, get_header, Request}
use nexustal.Domain.Json.{string, object_of, cons, nil, object, array, Items, Json, JsonLib}
use nexustal.Common.{
  ℕ, zero, suc, ◌+◌, ◌-◌, ◌*◌, ◌/◌, ◌%◌, ◌^◌, ◌≤◌, ◌<◌, String, ◌≡◌, refl, sym, ap, ◌∙◌, subst, ◌≢◌,
  ◌↔◌, ◌⊎◌, inl, inr, Bool, true, false, not, ◌&&◌, ◌||◌, Option, none, some, List, [], ◌∷◌, ◌++◌,
  append_assoc, append-nil, arith, ltb, leb, eqb, if◌then◌else◌, Bool-cases, Option-cases, is_some,
  Text, lit, ◌==◌, is_empty, eq_iff, eq_refl, ==-false, length, length-append, find_if, get_elem?,
  modify, take-length, drop-length, take, drop, drop-zero, take-append, drop-append, update_where,
  count_if, count_if-pos, find_if-any, find_if-holds, insert_desc, order_desc, any-insert_desc,
  any-order_desc, All-insert_desc, All-order_desc, find_if-All, any-select, any-false, any_mono,
  any-append, All-append, All-select_self, find_if_unique, any, select, All, All-select, Dict,
  lookup, put, without, lookup-put, lookup-without, Action, ◌>>=◌, ◌>>◌, pure,
}

abbrev unavailable : JsonLib → Response
unavailable lib = error lib 503 (lit "endpoint service is not configured")

abbrev not_found : JsonLib → Response
not_found lib = error lib 404 (lit "endpoint not found")

abbrev invalid_json : JsonLib → Response
invalid_json lib = error lib 400 (lit "invalid json")

abbrev pub user_of : Request → Uuid
user_of request = get_header (lit "x-user-id") request

abbrev array_of : JsonLib → JsonCpp → List Endpoint → Items
array_of lib cpp [] = nil
array_of lib cpp (e ∷ es) = cons (endpoint_to_json lib cpp e) (array_of lib cpp es)

abbrev listed : JsonLib → JsonCpp → Option (List Endpoint) → Option Response
listed lib cpp none = none
listed lib cpp (some es) = some (ok (array (array_of lib cpp es)))

abbrev shown : JsonLib → JsonCpp → Option (Option Endpoint) → Option Response
shown lib cpp none = none
shown lib cpp (some none) = some (not_found lib)
shown lib cpp (some (some e)) = some (ok (endpoint_to_json lib cpp e))

abbrev made : JsonLib → Option Uuid → Option Response
made lib none = none
made lib (some id) = some (
    if is_empty id
    then error lib 403 (lit "unable to create endpoint")
    else ok (object (object_of lib ((lit "id", string id) ∷ []))))

abbrev pub done_or_forbidden : JsonLib → Option Bool → Option Response
done_or_forbidden lib none = none
done_or_forbidden lib (some success) = some (outcome lib 403 success)

-- The routes of the controller, each with the text of its path.
pub data Route : Type 0 where
  list_route create_route get_route update_route remove_route publish_route : Uuid → Route

-- Nothing stands for an exception that leaves the handler.
module _ {S : Type 0} (lib : JsonLib) (cpp : JsonCpp) (service : EndpointService S) where
  unfoldable pub list : Uuid → Request → Action S (Option Response)
  list project_id request = do
    found ← get_project_endpoints service project_id (user_of request)
    pure (listed lib cpp found)

  abbrev pub create_parsed : Uuid → Request → Option Endpoint → Action S (Option Response)
  create_parsed project_id request none = pure none
  create_parsed project_id request (some e) = do
    created ← create_endpoint service project_id e (user_of request)
    pure (made lib created)

  abbrev pub create_body : Uuid → Request → Option Json → Action S (Option Response)
  create_body project_id request none = pure (some (invalid_json lib))
  create_body project_id request (some json) =
      create_parsed project_id request
        (parse_endpoint_payload lib cpp json project_id (user_of request))

  unfoldable pub create : Uuid → Request → Action S (Option Response)
  create project_id request = create_body project_id request request.json

  unfoldable pub get : Uuid → Request → Action S (Option Response)
  get endpoint_id request = do
    found ← get_endpoint service endpoint_id (user_of request)
    pure (shown lib cpp found)

  abbrev pub update_parsed : Uuid → Request → Option Endpoint → Action S (Option Response)
  update_parsed endpoint_id request none = pure none
  update_parsed endpoint_id request (some e) = do
    success ← update_endpoint service endpoint_id e (user_of request)
    pure (done_or_forbidden lib success)

  abbrev pub update_body : Uuid → Request → Endpoint → Option Json → Action S (Option Response)
  update_body endpoint_id request current none = pure (some (invalid_json lib))
  update_body endpoint_id request current (some json) =
      update_parsed endpoint_id request
        (parse_endpoint_payload lib cpp json current.project_id (user_of request))

  abbrev pub update_current : Uuid → Request → Option (Option Endpoint) → Action S (Option Response)
  update_current endpoint_id request none = pure none
  update_current endpoint_id request (some none) = pure (some (not_found lib))
  update_current endpoint_id request (some (some current)) =
      update_body endpoint_id request current request.json

  unfoldable pub update : Uuid → Request → Action S (Option Response)
  update endpoint_id request = do
    current ← get_endpoint service endpoint_id (user_of request)
    update_current endpoint_id request current

  unfoldable pub remove : Uuid → Request → Action S (Option Response)
  remove endpoint_id request = do
    success ← delete_endpoint service endpoint_id (user_of request)
    pure (done_or_forbidden lib success)

  unfoldable pub publish : Uuid → Request → Action S (Option Response)
  publish endpoint_id request = do
    success ← publish_endpoint service endpoint_id (user_of request)
    pure (done_or_forbidden lib success)

  unfoldable pub handle : Route → Request → Action S (Option Response)
  handle (list_route project_id) = list project_id
  handle (create_route project_id) = create project_id
  handle (get_route endpoint_id) = get endpoint_id
  handle (update_route endpoint_id) = update endpoint_id
  handle (remove_route endpoint_id) = remove endpoint_id
  handle (publish_route endpoint_id) = publish endpoint_id

-- A controller that has no service.
unfoldable pub respond :
    {S : Type 0}
    → JsonLib
    → JsonCpp
    → Option (EndpointService S)
    → Route
    → Request
    → Action S (Option Response)
respond lib cpp none route request = pure (some (unavailable lib))
respond lib cpp (some service) route request = handle lib cpp service route request
