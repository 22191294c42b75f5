-- ===== src/Storage.antt =====
-- The PostgreSQL tables of backend/migrations (001_initial.sql, 002_endpoints.sql,
-- 003_execution_and_collab.sql and 005_environment_globals.sql) that the repositories of
-- backend/infrastructure/adapters read and write, and how a statement is executed. A statement
-- that breaks a constraint of its table throws and changes nothing. So does one that meets an
-- outage: the list of outages says of each later statement whether the server refuses it.
pub mod Timestamps
pub mod Execution
pub mod Members
pub mod Invitations
pub mod Users
pub mod Attempts
pub mod Columns
pub mod Details
pub mod Endpoints
pub mod Environments
use nexustal.Common.{
  ℕ, zero, suc, ◌+◌, ◌-◌, ◌*◌, ◌/◌, ◌%◌, ◌^◌, ◌≤◌, ◌<◌, String, ◌≡◌, refl, sym, ap, ◌∙◌, subst, ◌≢◌,
  ◌↔◌, ◌⊎◌, inl, inr, Bool, true, false, not, ◌&&◌, ◌||◌, Option, none, some, List, [], ◌∷◌, ◌++◌,
  append_assoc, append-nil, arith, ltb, leb, eqb, if◌then◌else◌, Bool-cases, Option-cases, is_some,
  Text, lit, ◌==◌, is_empty, eq_iff, eq_refl, ==-false, length, length-append, find_if, get_elem?,
  modify, update_where, count_if, count_if-pos, find_if-any, find_if-holds, insert_desc, order_desc,
  any-insert_desc, any-order_desc, All-insert_desc, All-order_desc, find_if-All, any, select, All,
  All-select, Dict, lookup, put, without, lookup-put, lookup-without, Action, ◌>>=◌, ◌>>◌, pure,
}
use nexustal.Domain.Json.{Json}
use nexustal.Domain.Identity.{Uuid, Timestamp, User, Team}

pub record ProjectRow : Type 0 where
  pub id : Uuid
  pub team_id : Uuid

pub record MemberRow : Type 0 where
  pub team_id : Uuid
  pub user_id : Uuid
  pub role : Text

pub record InvitationRow : Type 0 where
  pub id : Uuid
  pub from_user_id : Uuid
  pub to_user_id : Uuid
  pub team_id : Option Uuid
  pub project_id : Option Uuid
  pub role : Text
  pub status : Text
  pub created_at : Timestamp
  pub responded_at : Option Timestamp

-- A column of type jsonb holds the value.
pub record EndpointRow : Type 0 where
  pub id : Uuid
  pub project_id : Uuid
  pub name : Json
  pub description : Option Json
  pub kind : Text
  pub status : Text
  pub created_by : Uuid
  pub created_at : Timestamp
  pub updated_at : Timestamp

-- The columns of `rest_endpoints`, `graphql_endpoints`, `soap_endpoints` and `websocket_endpoints`,
-- and a row of one of these tables.
pub data DetailColumns : Type 0 where
  rest_columns : (method url_path : Text) (query_params headers body : Json) → DetailColumns
  graphql_columns : (query : Text) (variables : Json) (schema_url : Option Text) → DetailColumns
  soap_columns : (wsdl_url operation request_xml : Text) → DetailColumns
  websocket_columns : (connection_url : Text) (protocols sample_messages : Json) → DetailColumns

pub record DetailRow : Type 0 where
  pub endpoint_id : Uuid
  pub columns : DetailColumns

pub record EnvironmentRow : Type 0 where
  pub id : Uuid
  pub project_id : Uuid
  pub name : Text
  pub variables : Json
  pub created_by : Uuid
  pub created_at : Timestamp
  pub updated_at : Timestamp

pub record GlobalsRow : Type 0 where
  pub project_id : Uuid
  pub variables : Json

-- `now` is the server's clock.
pub record Tables : Type 0 where
  pub users : List User
  pub teams : List Team
  pub projects : List ProjectRow
  pub members : List MemberRow
  pub invitations : List InvitationRow
  pub endpoints : List EndpointRow
  pub details : List DetailRow
  pub environments : List EnvironmentRow
  pub globals : List GlobalsRow
  pub now : Timestamp

pub record Database : Type 0 where
  pub tables : Tables
  pub outages : List Bool

-- A statement gives its result and the new tables, or nothing where it breaks a constraint.
abbrev pub Statement : Type 0 → Type 0
Statement A = Tables → Option (A × Tables)

abbrev pub committed : {A : Type 0} → Database → Option (A × Tables) → Option A × Database
committed db none = (none, db)
committed db (some (a, t)) = (some a, record db { tables = t })

-- `execSqlSync`; nothing stands for an exception.
unfoldable pub exec : {A : Type 0} → Statement A → Action Database (Option A)
exec statement db = elim db.outages [
  | [] ↦ committed db (statement db.tables)
  | refused ∷ later ↦
      let rest : Database = record db { outages = later } in
      if refused then (none, rest) else committed rest (statement db.tables)
]

-- The check constraints.
abbrev pub allowed_role : Text → Bool
allowed_role role =
    role == lit "owner"
    || role == lit "backend_dev"
    || role == lit "frontend_dev"
    || role == lit "viewer"

abbrev pub allowed_status : Text → Bool
allowed_status status =
    status == lit "pending" || status == lit "accepted" || status == lit "rejected"

-- The references.
abbrev pub has_user : Tables → Uuid → Bool
has_user t id = any (λ u. u.id == id) t.users

abbrev pub has_team : Tables → Uuid → Bool
has_team t id = any (λ r. r.id == id) t.teams

abbrev pub has_project : Tables → Uuid → Bool
has_project t id = any (λ r. r.id == id) t.projects

-- A reference that may be NULL.
abbrev pub refers : (Uuid → Bool) → Option Uuid → Bool
refers known none = true
refers known (some id) = known id
