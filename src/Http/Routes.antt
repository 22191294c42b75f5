-- ===== src/Http/Routes.antt =====
-- The routes of the controllers, METHOD_LIST of backend/src/controllers/*_controller.hpp. Which
-- route serves a request is up to the server, a parameter; a route with the filter is guarded.
use nexustal.Http.{Request, Response, error}
use nexustal.Http.Filter.{JwtAuthFilter, guarded}
use nexustal.Domain.Ports.{TokenClaims}
use nexustal.Domain.Json.{JsonLib}
use nexustal.Common.{
  ◌&&◌, ◌≡◌, ◌⊎◌, Bool, true, false, Option, none, some, List, [], ◌∷◌, ◌++◌, arith, if◌then◌else◌,
  Text, lit, any, All, Action,
}

pub data Method : Type 0 where
  on_get on_post on_put on_delete : Method

abbrev pub filter_name : Text
filter_name = lit "JwtAuthFilter"

-- A route names "JwtAuthFilter" or no filter.
pub record RouteEntry : Type 0 where
  pub method : Method
  pub pattern : Text
  pub names_filter : Bool

abbrev filtered : Method → Text → RouteEntry
filtered method pattern = record { method = method; pattern = pattern; names_filter = true }

abbrev open_to_all : Method → Text → RouteEntry
open_to_all method pattern = record { method = method; pattern = pattern; names_filter = false }

abbrev pub login_entry : RouteEntry
login_entry = open_to_all on_post (lit "/api/login")

abbrev auth_routes : List RouteEntry
auth_routes = login_entry ∷ filtered on_post (lit "/api/logout") ∷ []

abbrev endpoint_routes : List RouteEntry
endpoint_routes =
    filtered on_get (lit "/api/projects/{1}/endpoints")
    ∷ filtered on_post (lit "/api/projects/{1}/endpoints")
    ∷ filtered on_get (lit "/api/endpoints/{1}")
    ∷ filtered on_put (lit "/api/endpoints/{1}")
    ∷ filtered on_delete (lit "/api/endpoints/{1}")
    ∷ filtered on_post (lit "/api/endpoints/{1}/publish")
    ∷ []

abbrev invitation_routes : List RouteEntry
invitation_routes =
    filtered on_post (lit "/api/invitations")
    ∷ filtered on_get (lit "/api/invitations/pending")
    ∷ filtered on_put (lit "/api/invitations/{1}/accept")
    ∷ filtered on_put (lit "/api/invitations/{1}/reject")
    ∷ []

abbrev notification_routes : List RouteEntry
notification_routes = filtered on_get (lit "/api/notifications/stream") ∷ []

abbrev pub wizard_routes : List RouteEntry
wizard_routes =
    open_to_all on_get (lit "/api/wizard/status")
    ∷ open_to_all on_post (lit "/api/wizard/database")
    ∷ open_to_all on_post (lit "/api/wizard/admin")
    ∷ open_to_all on_post (lit "/api/wizard/company")
    ∷ []

unfoldable pub routes : List RouteEntry
routes = auth_routes ++ endpoint_routes ++ invitation_routes ++ notification_routes ++ wizard_routes

-- The server takes a route of the list that serves the method and the path, if there is one.
pub record Router : Type 0 where
  pub serves : RouteEntry → Method → Text → Bool
  pub choose : List RouteEntry → Method → Text → Option RouteEntry
  pub choose-serves :
      (entries : List RouteEntry) (method : Method) (path : Text) (entry : RouteEntry)
      → choose entries method path ≡ some entry
      → serves entry method path ≡ true
  pub choose-All :
      (holds : RouteEntry → Bool) (entries : List RouteEntry) (method : Method) (path : Text)
      (entry : RouteEntry)
      → choose entries method path ≡ some entry
      → All (λ e. holds e ≡ true) entries
      → holds entry ≡ true

-- The login and the wizard's routes.
abbrev pub is_open : Router → Method → Text → Bool
is_open router method path =
    any (λ entry. router.serves entry method path) (login_entry ∷ wizard_routes)

module _ {S : Type 0} (lib : JsonLib) (filter : JwtAuthFilter S) (router : Router)
    (handler : RouteEntry → Request → Action S (Option Response)) (not_found : Response)
    (resolves : Text → Bool) where
  -- `resolves` tells whether the server finds the filter's class under a name; the class is
  -- nexustal::filters::JwtAuthFilter, and a name that is not found filters nothing.
  abbrev pub entered : Option RouteEntry → Request → Action S (Option Response)
  entered none request s = (some not_found, s)
  entered (some entry) request s =
      if entry.names_filter && resolves filter_name
      then guarded lib filter (handler entry) request s
      else handler entry request s

  -- A request to the server.
  unfoldable pub dispatch : Method → Text → Request → Action S (Option Response)
  unfolding routes
  dispatch method path request = entered (router.choose routes method path) request

  -- Where the name is not resolved, no route is filtered.
  dispatch-unresolved :
      (method : Method) (path : Text) (request : Request) (s : S) (entry : RouteEntry)
      → resolves filter_name ≡ false
      → router.choose routes method path ≡ some entry
      → dispatch method path request s ≡ handler entry request s
  unfolding dispatch
  dispatch-unresolved method path request s entry unknown chosen =
      rw chosen (ground (arith, unknown))

  -- What is known of a request that is answered without its handler.
  abbrev Unhandled : (Text → Action S (Option TokenClaims)) → S → Option Response × S → Type 0
  Unhandled validate s r =
      ((r.0 ≡ some not_found) ⊎ ((message : Text) × (r.0 ≡ some (error lib 401 message))))
      × ((r.1 ≡ s) ⊎ ((token : Text) × (r.1 ≡ (validate token s).1)))
