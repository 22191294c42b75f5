-- ===== src/Storage/Details.antt =====
-- The details of an endpoint: backend/infrastructure/adapters/postgres_endpoint_repository.cpp, lines
-- 20-28 and 186-343, and the four tables of details of backend/migrations/002_endpoints.sql. The
-- names of methods fit `varchar(16)`.
pub mod Laws
use nexustal.Storage.Columns.{varchar}
use nexustal.Domain.Identity.{Uuid}
use nexustal.Storage.{
  websocket_columns, graphql_columns, soap_columns, Statement, rest_columns, Tables, DetailColumns,
  DetailRow,
}
use mathlib.Core.Option
use nexustal.Domain.Json.{get, string, null, boolean, number, array, object, Json, JsonLib}
use nexustal.Domain.Endpoint.{
  default_websocket, default_soap, default_graphql, of_soap, of_graphql, default_rest,
  http_method_from_string, http_method_to_string, of_rest, of_websocket, EndpointType,
  EndpointDetails, RestDetails, websocket, rest, soap, graphql,
}
use nexustal.Storage.Attempts.{done, throw, attempt, Attempt, Trial, ◌>>=◌, ◌>>◌, pure, returned}
use nexustal.Common.{
  ℕ, zero, suc, ◌+◌, ◌-◌, ◌*◌, ◌/◌, ◌%◌, ◌^◌, ◌≤◌, ◌<◌, String, ◌≡◌, refl, sym, ap, ◌∙◌, subst, ◌≢◌,
  ◌↔◌, ◌⊎◌, inl, inr, Bool, true, false, not, ◌&&◌, ◌||◌, Option, none, some, List, [], ◌∷◌, ◌++◌,
  append_assoc, append-nil, arith, ltb, leb, eqb, if◌then◌else◌, Bool-cases, Option-cases, is_some,
  Text, lit, ◌==◌, is_empty, eq_iff, eq_refl, ==-false, length, length-append, find_if, get_elem?,
  modify, take-length, drop-length, take, drop, drop-zero, take-append, drop-append, update_where,
  count_if, count_if-pos, find_if-any, find_if-holds, insert_desc, order_desc, any-insert_desc,
  any-order_desc, All-insert_desc, All-order_desc, find_if-All, any-select, any-false, any_mono,
  any-append, All-append, All-select_self, find_if_unique, any, select, All, All-select, Dict,
  lookup, put, without, lookup-put, lookup-without, Action,
}

abbrev same_type : EndpointType → EndpointType → Bool
same_type rest rest = true
same_type graphql graphql = true
same_type soap soap = true
same_type websocket websocket = true
same_type _ _ = false

-- The table of a detail row.
abbrev pub table_of : DetailColumns → EndpointType
table_of (rest_columns _ _ _ _ _) = rest
table_of (graphql_columns _ _ _) = graphql
table_of (soap_columns _ _ _) = soap
table_of (websocket_columns _ _ _) = websocket

abbrev pub is_detail : EndpointType → Uuid → DetailRow → Bool
is_detail kind id d = d.endpoint_id == id && same_type (table_of d.columns) kind

abbrev pub has_endpoint : Tables → Uuid → Bool
has_endpoint t id = any (λ r. r.id == id) t.endpoints

abbrev soap_fitted : Text → Text → Option Text → Option DetailColumns
soap_fitted wsdl_url request_xml none = none
soap_fitted wsdl_url request_xml (some operation) =
    some (soap_columns wsdl_url operation request_xml)

-- `soap_endpoints.operation varchar(255)`
unfoldable pub fitted : DetailColumns → Option DetailColumns
fitted (rest_columns method url_path query_params headers body) =
    some (rest_columns method url_path query_params headers body)
fitted (graphql_columns query variables schema_url) =
    some (graphql_columns query variables schema_url)
fitted (soap_columns wsdl_url operation request_xml) =
    soap_fitted wsdl_url request_xml (varchar 255 operation)
fitted (websocket_columns connection_url protocols sample_messages) =
    some (websocket_columns connection_url protocols sample_messages)

-- The key of a detail table and its reference.
abbrev pub insert_fitted : Uuid → Option DetailColumns → Statement (Unit {0})
insert_fitted id none t = none
insert_fitted id (some columns) t =
    if has_endpoint t id && not (any (is_detail (table_of columns) id) t.details)
    then some (
      tt,
      record t { details = t.details ++ record { endpoint_id = id; columns = columns } ∷ [] },
    )
    else none

unfoldable pub insert_detail : Uuid → DetailColumns → Statement (Unit {0})
insert_detail id columns = insert_fitted id (fitted columns)

unfoldable pub delete_detail : EndpointType → Uuid → Statement (Unit {0})
delete_detail kind id t =
    some (tt, record t { details = select (λ d. not (is_detail kind id d)) t.details })

-- `parseJsonField`
abbrev pub parse_json_field : Option Json → Json → Json
parse_json_field none fallback = fallback
parse_json_field (some value) fallback = value

abbrev pub columns_of : DetailRow → DetailColumns
columns_of d = d.columns

-- The columns of the endpoint's row in the table of a type.
unfoldable pub select_detail : EndpointType → Uuid → Statement (Option DetailColumns)
select_detail kind id t = some (Option.map columns_of (find_if (is_detail kind id) t.details), t)

unfoldable pub default_details : EndpointType → EndpointDetails
default_details rest = of_rest default_rest
default_details graphql = of_graphql default_graphql
default_details soap = of_soap default_soap
default_details websocket = of_websocket default_websocket

abbrev pub insert_columns : Uuid → Option DetailColumns → Trial (Unit {0})
insert_columns id none = throw
insert_columns id (some columns) = attempt (insert_detail id columns)

abbrev rest_read : Text → Text → Json → Json → Json → Option Text → Option EndpointDetails
rest_read method url_path query_params headers body none = none
rest_read method url_path query_params headers body (some raw) = some (
    of_rest (record {
      method = http_method_from_string method;
      url_path = url_path;
      query_params = query_params;
      headers = headers;
      body = body;
      body_raw = raw;
    }))

abbrev websocket_read : Text → Json → Option (List Text) → Option EndpointDetails
websocket_read connection_url sample_messages none = none
websocket_read connection_url sample_messages (some protocols) = some (
    of_websocket (record {
      connection_url = connection_url;
      protocols = protocols;
      sample_messages = sample_messages;
    }))

abbrev rest_stored : RestDetails → Option Json → Option DetailColumns
rest_stored d none = none
rest_stored d (some body) =
    some (rest_columns (http_method_to_string d.method) d.url_path d.query_params d.headers body)

module _ (lib : JsonLib) where
  -- `body.contains("raw") ? body["raw"].get<std::string>() : std::string{}`
  abbrev pub raw_text : Option Json → Option Text
  raw_text none = some []
  raw_text (some value) = lib.text_of value

  unfoldable pub raw_of : Json → Option Text
  raw_of (object m) = raw_text (get (lit "raw") m)
  raw_of null = some []
  raw_of (boolean _) = some []
  raw_of (number _) = some []
  raw_of (string _) = some []
  raw_of (array _) = some []

  -- The details that the columns are read as, or nothing where a conversion throws.
  unfoldable pub read_columns : DetailColumns → Option EndpointDetails
  read_columns (rest_columns method url_path query_params headers body) =
      rest_read method url_path query_params headers body (raw_of body)
  read_columns (graphql_columns query variables schema_url) =
      some (of_graphql (record { query = query; variables = variables; schema_url = schema_url }))
  read_columns (soap_columns wsdl_url operation request_xml) =
      some
        (of_soap (record { wsdl_url = wsdl_url; operation = operation; request_xml = request_xml }))
  read_columns (websocket_columns connection_url protocols sample_messages) =
      websocket_read connection_url sample_messages (lib.texts_of protocols)

  abbrev pub read_details : EndpointType → Option DetailColumns → Attempt EndpointDetails
  read_details kind none = done (default_details kind)
  read_details kind (some columns) = returned (read_columns columns)

  unfoldable pub load_details : Uuid → EndpointType → Trial EndpointDetails
  load_details endpoint_id kind =
      attempt (select_detail kind endpoint_id) >>= λ found db. (read_details kind found, db)

  -- `body["raw"] = details.body_raw`
  unfoldable pub stored_body : RestDetails → Option Json
  stored_body d =
      if is_empty d.body_raw then some d.body else lib.assign (lit "raw") (string d.body_raw) d.body

  -- The row that is written, or nothing where an exception other than the database's goes out.
  unfoldable pub columns_for : EndpointDetails → Option DetailColumns
  columns_for (of_rest d) = rest_stored d (stored_body d)
  columns_for (of_graphql d) = some (graphql_columns d.query d.variables d.schema_url)
  columns_for (of_soap d) = some (soap_columns d.wsdl_url d.operation d.request_xml)
  columns_for (of_websocket d) =
      some (websocket_columns d.connection_url (lib.of_texts d.protocols) d.sample_messages)

  unfoldable pub insert_type_details : Uuid → EndpointDetails → Trial (Unit {0})
  insert_type_details id details = insert_columns id (columns_for details)
