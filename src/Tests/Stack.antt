-- ===== src/Tests/Stack.antt =====
-- A front-end developer of the shop, who may not delete its endpoint.
use nexustal.Http.Endpoints.Guarded.{guarded-unchanged}
use nexustal.Http.Endpoints.Laws.{may_request}
use nexustal.Http.Endpoints.{remove_route, handle}
use nexustal.Http.Filter.{
  JwtAuthFilter, do_filter, guarded, passed, bearer_token, identified, resolve_role,
}
use nexustal.Http.{Request, get_header, add_header}
use nexustal.Services.Endpoints.Postgres.{endpoint_service_without_redis, postgres_access}
use nexustal.Domain.Ports.{TokenClaims}
use nexustal.Domain.Endpoint.{Endpoint, default_rest, of_rest, rest}
use nexustal.Domain.Json.{empty_object}
use nexustal.Domain.Capabilities.{role_from_string}
use nexustal.Domain.Capabilities.{has_capability as role_has_capability}
use nexustal.Storage.{Database, Tables}
use nexustal.Storage.Endpoints.{map_base_endpoint}
use nexustal.Tests.Http.{cpp}
use nexustal.Tests.Variables.{library}
use nexustal.Tests.Data.{alice, bob, core, shop, first, office}
use nexustal.Common.{
  ◌≡◌, refl, sym, subst, false, Option, none, some, [], ◌∷◌, ◌++◌, arith, Text, lit, ◌==◌, lookup,
  put, Action,
}

abbrev staffed_shop : Tables
staffed_shop = record office {
  members = record { team_id = core; user_id = bob; role = lit "frontend_dev" } ∷ [];
  endpoints =
      record {
        id = first;
        project_id = shop;
        name = empty_object;
        description = none;
        kind = lit "REST";
        status = lit "draft";
        created_by = alice;
        created_at = 5;
        updated_at = 5;
      }
      ∷ [];
}

abbrev database : Database
database = record { tables = staffed_shop; outages = [] }

-- A token is the name of its user.
abbrev by_name : Text → Action Database (Option TokenClaims)
by_name token db = (some (record { user_id = token; token_version = lit "1" }), db)

abbrev filter : JwtAuthFilter Database
filter = record { validate = some by_name; users = none; cache = none }

abbrev deletion : Request
deletion = record { headers = (lit "authorization", lit "Bearer " ++ bob) ∷ []; json = none }

abbrev draft : Endpoint
draft = record {
  id = first;
  project_id = shop;
  name = empty_object;
  description = empty_object;
  created_by = alice;
  status = lit "draft";
  kind = rest;
  details = of_rest default_rest;
  tag_ids = [];
  created_at = 0;
  updated_at = 0;
}

abbrev admitted_deletion : Request
admitted_deletion =
    identified library filter (record { user_id = bob; token_version = lit "1" }) (lit "viewer")
      deletion

passes : (do_filter library filter deletion database).0 ≡ passed admitted_deletion
unfolding do_filter bearer_token get_header lookup lit ◌==◌ resolve_role
passes = refl

stays : (do_filter library filter deletion database).1 ≡ database
unfolding do_filter bearer_token get_header lookup lit ◌==◌ resolve_role
stays = refl

bob_cannot :
    may_request
      (postgres_access library false [])
      library
      cpp
      (remove_route first)
      admitted_deletion
      draft
      database
    ≡ false
unfolding role_has_capability role_from_string map_base_endpoint get_header add_header put lookup
    lit ◌==◌
bob_cannot = refl

bob_never :
    (admitted : Request)
    → (do_filter library filter deletion database).0 ≡ passed admitted
    → may_request
        (postgres_access library false [])
        library
        cpp
        (remove_route first)
        admitted
        draft
        (do_filter library filter deletion database).1
      ≡ false
bob_never admitted e =
    let same : admitted_deletion ≡ admitted = ground (arith, passes, e) in
    subst
      (λ db.
        may_request (postgres_access library false []) library cpp (remove_route first) admitted
          draft db
        ≡ false)
      (sym stays)
      (subst
        (λ q.
          may_request (postgres_access library false []) library cpp (remove_route first) q draft
            database
          ≡ false)
        same bob_cannot)

guarded-unchanged_example :
    (guarded library filter
      (λ request db.
        handle library cpp
          (endpoint_service_without_redis library false [])
          (remove_route first)
          request
          db)
      deletion
      database).1.tables
    ≡ (do_filter library filter deletion database).1.tables
guarded-unchanged_example =
    guarded-unchanged library cpp false [] filter (remove_route first) draft deletion database
      bob_never
