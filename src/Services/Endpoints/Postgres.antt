-- ===== src/Services/Endpoints/Postgres.antt =====
-- The endpoint service over the PostgreSQL repositories, with the roles read from the tables, as
-- backend/src/main.cpp wires it where the bootstrap of Redis is skipped and `redisClient` stays
-- empty. With Redis a role may be read from the cache instead, for up to 300 seconds.
use nexustal.Services.Endpoints.{EndpointService}
use nexustal.Services.Endpoints.Access.{Access, Summary, summary_of}
use nexustal.Services.Roles.{get_project_role}
use nexustal.Storage.Endpoints.{endpoint_repository, map_base_endpoint, find_endpoint_by_id}
use nexustal.Storage.Endpoints.Reads.{
  find_endpoint_by_id-Keeps, find_endpoints_by_project-Keeps, find_endpoint_by_id-Read, read-Keeps,
}
use nexustal.Storage.Execution.{exec-Executed}
use nexustal.Storage.Members.{
  project_repository, find_role_for_user, select_role, read_role, joined,
}
use nexustal.Storage.{Database, Tables, EndpointRow}
use nexustal.Domain.Endpoint.{Endpoint}
use nexustal.Domain.Identity.{Uuid, UserRole}
use nexustal.Domain.Capabilities.{role_from_string}
use nexustal.Domain.Json.{JsonLib}
use mathlib.Core.Option
use nexustal.Common.{
  ◌≡◌, refl, sym, ap, ◌∙◌, inl, inr, Bool, Option, none, some, arith, ◌==◌, eq_iff, find_if,
  find_if-holds,
}

abbrev pub endpoint_service_without_redis :
    JsonLib → (kept : Bool) (fresh : Uuid) → EndpointService Database
endpoint_service_without_redis lib kept fresh = record {
  repository = endpoint_repository lib kept fresh;
  roles = record { projects = project_repository; cache = none };
}

abbrev summary_of_row : Option EndpointRow → Option Summary
summary_of_row none = none
summary_of_row (some row) = some (summary_of (map_base_endpoint row))

abbrev pub stored_summary : Tables → Uuid → Option Summary
stored_summary t id = summary_of_row (find_if (λ r. r.id == id) t.endpoints)

abbrev pub stored_role : Tables → Uuid → Uuid → Option UserRole
stored_role t user_id project_id =
    Option.map role_from_string
      (Option.map (λ m. m.role) (find_if (joined project_id user_id t) t.members))

-- A role that is read is the stored one, whether or not the server answers.
role_read :
    (user_id project_id : Uuid) (w : Database) (r : UserRole)
    → (find_role_for_user project_id user_id w).0 ≡ some r
    → stored_role w.tables user_id project_id ≡ some r
unfolding find_role_for_user select_role
role_read user_id project_id w r h = elim (exec-Executed (select_role project_id user_id) w) [
  | inl (missing, _) ↦ absurd (ground (arith, missing, h))
  | inr (role, t, done, found, new) ↦
      let stored : Option.map (λ m. m.role)
            (find_if (joined project_id user_id w.tables) w.tables.members)
          ≡ role =
        ap (λ x. elim x [ none ↦ none | some p ↦ p.0 ]) done in
      ap (Option.map role_from_string) stored ∙ sym (ap read_role found) ∙ h
]

pub service_role_read :
    (lib : JsonLib) (kept : Bool) (fresh : Uuid) (user_id project_id : Uuid) (w : Database)
    (r : UserRole)
    → (get_project_role
        (endpoint_service_without_redis lib kept fresh).roles
        user_id
        project_id
        w).0
      ≡ some r
    → stored_role w.tables user_id project_id ≡ some r
unfolding get_project_role
service_role_read lib kept fresh user_id project_id w r h = role_read user_id project_id w r h

pub service_role_keeps :
    (lib : JsonLib) (kept : Bool) (fresh : Uuid) (user_id project_id : Uuid) (w : Database)
    → (get_project_role
        (endpoint_service_without_redis lib kept fresh).roles
        user_id
        project_id
        w).1.tables
      ≡ w.tables
unfolding get_project_role find_role_for_user select_role
service_role_keeps lib kept fresh user_id project_id w =
    read-Keeps (λ t. t ≡ w.tables)
      (λ t. Option.map (λ m. m.role) (find_if (joined project_id user_id t) t.members)) w refl

pub find_reads :
    (lib : JsonLib) (id : Uuid) (w : Database) (e : Endpoint)
    → (find_endpoint_by_id lib id w).0 ≡ some (some e)
    → (stored_summary w.tables id ≡ some (summary_of e)) × (e.id ≡ id)
unfolding map_base_endpoint
find_reads lib id w e h =
    let (row, found, (details, read)) = find_endpoint_by_id-Read lib id w e h in
    (
      ap summary_of_row found ∙ ap (λ x. some (summary_of x)) (sym read),
      ap (λ x. x.id) read
          ∙ (eq_iff row.id id).0 (find_if-holds (λ r. r.id == id) w.tables.endpoints row found),
    )

abbrev pub postgres_access :
    (lib : JsonLib) (kept : Bool) (fresh : Uuid)
    → Access Database Tables (endpoint_service_without_redis lib kept fresh)
postgres_access lib kept fresh = record {
  content = λ w. w.tables;
  summary = stored_summary;
  role_at = stored_role;
  role_read = service_role_read lib kept fresh;
  role_read_keeps = service_role_keeps lib kept fresh;
  find_reads = find_reads lib;
  find_keeps = λ id w. find_endpoint_by_id-Keeps (λ t. t ≡ w.tables) lib id w refl;
  list_keeps =
      λ project_id w. find_endpoints_by_project-Keeps (λ t. t ≡ w.tables) lib project_id w refl;
}
