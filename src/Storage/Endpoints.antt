-- ===== src/Storage/Endpoints.antt =====
-- backend/infrastructure/adapters/postgres_endpoint_repository.cpp and the tables of
-- backend/migrations/002_endpoints.sql. The names of types fit `varchar(20)`.
pub mod Laws
pub mod Creation
pub mod Bounds
pub mod Unreadable
pub mod Reads
use nexustal.Storage.Users.{or_fresh}
use nexustal.Storage.Columns.{varchar}
use nexustal.Storage.Members.{affected}
use nexustal.Storage.Details.{
  insert_type_details, delete_detail, has_endpoint, load_details, parse_json_field,
}
use nexustal.Domain.Ports.{EndpointRepository}
use nexustal.Storage.{has_user, has_project, exec, Tables, Statement, Database, EndpointRow}
use nexustal.Domain.Identity.{Uuid, Timestamp}
use mathlib.Core.Option
use nexustal.Domain.Json.{
  empty_object, get, string, null, boolean, number, array, object, Json, JsonLib,
}
use nexustal.Domain.Endpoint.{
  default_rest, of_rest, endpoint_type_from_string, endpoint_type_to_string, Endpoint, websocket,
  rest, soap, graphql,
}
use nexustal.Storage.Attempts.{
  call, thrown, transaction, refused, rescue, done, attempt, Trial, Attempt, ◌>>=◌, ◌>>◌, pure,
  returned,
}
use nexustal.Common.{
  ℕ, zero, suc, ◌+◌, ◌-◌, ◌*◌, ◌/◌, ◌%◌, ◌^◌, ◌≤◌, ◌<◌, String, ◌≡◌, refl, sym, ap, ◌∙◌, subst, ◌≢◌,
  ◌↔◌, ◌⊎◌, inl, inr, Bool, true, false, not, ◌&&◌, ◌||◌, Option, none, some, List, [], ◌∷◌, ◌++◌,
  append_assoc, append-nil, arith, ltb, leb, eqb, if◌then◌else◌, Bool-cases, Option-cases, is_some,
  Text, lit, ◌==◌, is_empty, eq_iff, eq_refl, ==-false, length, length-append, find_if, get_elem?,
  modify, take-length, drop-length, take, drop, drop-zero, take-append, drop-append, update_where,
  count_if, count_if-pos, find_if-any, find_if-holds, insert_desc, order_desc, any-insert_desc,
  any-order_desc, All-insert_desc, All-order_desc, find_if-All, any-select, any-false, any_mono,
  any-append, All-append, All-select_self, find_if_unique, any, select, All, All-select, Dict,
  lookup, put, without, lookup-put, lookup-without, Action,
}

abbrev pub allowed_type : Text → Bool
allowed_type kind =
    kind == lit "REST" || kind == lit "GRAPHQL" || kind == lit "SOAP" || kind == lit "WEBSOCKET"

-- The check on the type, the key and the references.
abbrev pub row_allowed : Uuid → Endpoint → Tables → Bool
row_allowed id e t =
    allowed_type (endpoint_type_to_string e.kind)
    && (not (has_endpoint t id) && (has_project t e.project_id && has_user t e.created_by))

abbrev pub new_row : Uuid → Text → Endpoint → Timestamp → EndpointRow
new_row id status e now = record {
  id = id;
  project_id = e.project_id;
  name = e.name;
  description = some e.description;
  kind = endpoint_type_to_string e.kind;
  status = status;
  created_by = e.created_by;
  created_at = now;
  updated_at = now;
}

abbrev pub with_row : Uuid → Text → Endpoint → Tables → Tables
with_row id status e t = record t { endpoints = t.endpoints ++ new_row id status e t.now ∷ [] }

unfoldable pub insert_row : Uuid → Endpoint → Statement Uuid
insert_row id e t = elim (varchar 20 e.status) [
  | none ↦ none
  | some status ↦ if row_allowed id e t then some (id, with_row id status e t) else none
]

abbrev pub revise_row : Timestamp → Text → Endpoint → EndpointRow → EndpointRow
revise_row now status e r = record r {
  name = e.name;
  description = some e.description;
  kind = endpoint_type_to_string e.kind;
  status = status;
  updated_at = now;
}

abbrev pub with_revision : Text → Endpoint → Tables → Tables
with_revision status e t = record t {
  endpoints = update_where (λ r. r.id == e.id) (revise_row t.now status e) t.endpoints;
}

unfoldable pub set_row : Endpoint → Statement (Unit {0})
set_row e t = elim (varchar 20 e.status) [
  | none ↦ none
  | some status ↦
      if allowed_type (endpoint_type_to_string e.kind)
      then some (tt, with_revision status e t)
      else none
]

unfoldable pub map_base_endpoint : EndpointRow → Endpoint
map_base_endpoint row = record {
  id = row.id;
  project_id = row.project_id;
  name = row.name;
  description = parse_json_field row.description empty_object;
  kind = endpoint_type_from_string row.kind;
  status = row.status;
  created_by = row.created_by;
  created_at = row.created_at;
  updated_at = row.updated_at;
  details = of_rest default_rest;
  tag_ids = [];
}

abbrev prepend : Endpoint → Option (List Endpoint) → Option (List Endpoint)
prepend e none = none
prepend e (some es) = some (e ∷ es)

-- What the loop comes to after one row, from what the later rows come to.
abbrev pub collected :
    Attempt Endpoint × Database
    → Option (List Endpoint) × Database
    → Option (List Endpoint) × Database
collected (done e, db) later = (prepend e later.0, later.1)
collected (refused, db) later = (some [], db)
collected (thrown, db) later = (none, db)

unfoldable pub select_project : Uuid → Statement (List EndpointRow)
select_project project_id t =
    some (order_desc (λ r. r.updated_at) (select (λ r. r.project_id == project_id) t.endpoints), t)

unfoldable pub select_endpoint : Uuid → Statement (Option EndpointRow)
select_endpoint id t = some (find_if (λ r. r.id == id) t.endpoints, t)

module _ (lib : JsonLib) where
  unfoldable pub load_endpoint : EndpointRow → Trial Endpoint
  load_endpoint row =
      let endpoint = map_base_endpoint row in
      load_details lib endpoint.id endpoint.kind >>= λ details.
      pure (record endpoint { details = details })

  -- The loop over the rows. A refused statement leaves it, and the handler then gives back what
  -- was collected before.
  unfoldable pub load_endpoints : List EndpointRow → Action Database (Option (List Endpoint))
  load_endpoints [] db = (some [], db)
  load_endpoints (row ∷ rows) db =
      collected (load_endpoint row db) (load_endpoints rows (load_endpoint row db).1)

  unfoldable pub find_endpoints_by_project : Uuid → Action Database (Option (List Endpoint))
  find_endpoints_by_project project_id db =
      let (rows, db') = exec (select_project project_id) db in
      elim rows [ none ↦ (some [], db') | some rows ↦ load_endpoints rows db' ]

  unfoldable pub find_endpoint : Option EndpointRow → Trial (Option Endpoint)
  find_endpoint none = pure none
  find_endpoint (some row) = load_endpoint row >>= λ e. pure (some e)

  unfoldable pub find_endpoint_by_id : Uuid → Action Database (Option (Option Endpoint))
  find_endpoint_by_id id = rescue none (attempt (select_endpoint id) >>= find_endpoint)

  unfoldable pub create_endpoint_row :
      (kept : Bool) (fresh : Uuid) → Endpoint → Action Database (Option Uuid)
  create_endpoint_row kept fresh e = rescue [] (
      transaction kept (
        attempt (insert_row (or_fresh fresh e.id) e) >>= λ created.
        insert_type_details lib created e.details >>= λ _. pure created))

  abbrev pub revise : Endpoint → Option Endpoint → Trial Bool
  revise e none = pure false
  revise e (some existing) =
      attempt (set_row e)
      >> (attempt (delete_detail existing.kind e.id)
          >> (insert_type_details lib e.id e.details >> pure true))

  -- The look-up reads what was there when the transaction began. It takes a second connection of
  -- the client: this is an update over a client that has one to give.
  unfoldable pub update_endpoint_row : (kept : Bool) → Endpoint → Action Database (Option Bool)
  update_endpoint_row kept e =
      rescue false (transaction kept (call (find_endpoint_by_id e.id) >>= revise e))

-- `ON DELETE CASCADE`
unfoldable pub delete_row : Uuid → Statement ℕ
delete_row id t = some (
  count_if (λ r. r.id == id) t.endpoints,
  record t {
    endpoints = select (λ r. not (r.id == id)) t.endpoints;
    details = select (λ d. not (d.endpoint_id == id)) t.details;
  },
)

unfoldable pub remove_endpoint_row : Uuid → Action Database Bool
remove_endpoint_row id db = (affected (exec (delete_row id) db).0, (exec (delete_row id) db).1)

unfoldable pub search_endpoints_by_tags : Uuid → List Uuid → Action Database (List Endpoint)
search_endpoints_by_tags project_id tag_ids db = ([], db)

abbrev pub endpoint_repository :
    JsonLib → (kept : Bool) (fresh : Uuid) → EndpointRepository Database
endpoint_repository lib kept fresh = record {
  find_by_project = find_endpoints_by_project lib;
  find_by_id = find_endpoint_by_id lib;
  create = create_endpoint_row lib kept fresh;
  update = update_endpoint_row lib kept;
  remove = remove_endpoint_row;
  search_by_tags = search_endpoints_by_tags;
}
