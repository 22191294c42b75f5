-- ===== src/Http/Endpoints/Guarded.antt =====
-- The routes of the endpoint controller behind the filter, on the PostgreSQL repositories.
use nexustal.Http.{Request, Response}
use nexustal.Http.{JsonCpp}
use nexustal.Http.Filter.{JwtAuthFilter, Verdict, passed, failed, do_filter, guarded, handled}
use nexustal.Http.Endpoints.{Route, handle}
use nexustal.Http.Endpoints.Laws.{may_request, handle_unauthorised}
use nexustal.Services.Endpoints.Postgres.{endpoint_service_without_redis, postgres_access}
use nexustal.Storage.{Database}
use nexustal.Domain.Endpoint.{Endpoint}
use nexustal.Domain.Identity.{Uuid}
use nexustal.Domain.Json.{JsonLib}
use nexustal.Common.{◌≡◌, refl, Bool, false, Option, Action}

module _ (lib : JsonLib) (cpp : JsonCpp) (kept : Bool) (fresh : Uuid)
    (filter : JwtAuthFilter Database) (route : Route) where
  abbrev service_route : Request → Action Database (Option Response)
  service_route request db =
      handle lib cpp (endpoint_service_without_redis lib kept fresh) route request db

  handled-unchanged :
      (blank : Endpoint) (verdict : Verdict) (db : Database)
      → ((admitted : Request)
          → verdict ≡ passed admitted
          → may_request (postgres_access lib kept fresh) lib cpp route admitted blank db ≡ false)
      → (handled lib filter service_route verdict db).1.tables ≡ db.tables
  handled-unchanged blank (failed response) db h = refl
  handled-unchanged blank (passed admitted) db h =
      handle_unauthorised (postgres_access lib kept fresh) lib cpp route admitted blank db
        (h admitted refl)

  -- Without Redis, so that roles are read from the tables, and where the filter runs, a request to
  -- a route of the endpoint controller leaves the tables as the filter leaves them,
  -- whatever its body and whatever the server refuses, if the filter does not let it through, or
  -- if in the tables the user under whom it lets it through has no role in the project with the
  -- right for the route. The right of a route is the same for each endpoint `blank`.
  pub guarded-unchanged :
      (blank : Endpoint) (request : Request) (db : Database)
      → ((admitted : Request)
          → (do_filter lib filter request db).0 ≡ passed admitted
          → may_request
              (postgres_access lib kept fresh)
              lib
              cpp
              route
              admitted
              blank
              (do_filter lib filter request db).1
            ≡ false)
      → (guarded lib filter service_route request db).1.tables
        ≡ (do_filter lib filter request db).1.tables
  unfolding guarded
  guarded-unchanged blank request db h =
      handled-unchanged blank (do_filter lib filter request db).0
        (do_filter lib filter request db).1 h
