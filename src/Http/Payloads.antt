-- ===== src/Http/Payloads.antt =====
-- The payloads of backend/src/controllers/endpoint_controller.cpp.
pub mod Laws
use nexustal.Common.Options.{◌>>=◌}
use nexustal.Domain.Endpoint.{
  rest, websocket, soap, graphql, http_method_from_string, of_websocket, of_soap,
  endpoint_type_from_string, of_graphql, http_method_to_string, endpoint_type_to_string, of_rest,
  EndpointDetails, EndpointType, Endpoint,
}
use nexustal.Domain.Identity.{Uuid}
use nexustal.Http.{JsonCpp}
use nexustal.Domain.Json.{empty_array, object_of, object, empty_object, string, null, Json, JsonLib}
use nexustal.Common.{
  ℕ, zero, suc, ◌+◌, ◌-◌, ◌*◌, ◌/◌, ◌%◌, ◌^◌, ◌≤◌, ◌<◌, String, ◌≡◌, refl, sym, ap, ◌∙◌, subst, ◌≢◌,
  ◌↔◌, ◌⊎◌, inl, inr, Bool, true, false, not, ◌&&◌, ◌||◌, Option, none, some, List, [], ◌∷◌, ◌++◌,
  append_assoc, append-nil, arith, ltb, leb, eqb, if◌then◌else◌, Bool-cases, Option-cases, is_some,
  Text, lit, ◌==◌, is_empty, eq_iff, eq_refl, ==-false, length, length-append, find_if, get_elem?,
  modify, take-length, drop-length, take, drop, drop-zero, take-append, drop-append, update_where,
  count_if, count_if-pos, find_if-any, find_if-holds, insert_desc, order_desc, any-insert_desc,
  any-order_desc, All-insert_desc, All-order_desc, find_if-All, any-select, any-false, any_mono,
  any-append, All-append, All-select_self, find_if_unique, any, select, All, All-select, Dict,
  lookup, put, without, lookup-put, lookup-without, Action,
}

abbrev or_null : Option Json → Json
or_null none = null
or_null (some value) = value

-- `type` is `kind`. Nothing where JsonCpp or nlohmann::json throws.
module _ (lib : JsonLib) (cpp : JsonCpp) where
  -- `json[key].asString()`
  unfoldable pub text_at : Json → Text → Option Text
  text_at json key = do value ← cpp.member json key; cpp.as_string value

  -- `nlohmann::json::parse(Json::writeString(…, json[key]))`
  unfoldable pub json_at : Json → Text → Option Json
  json_at json key = do value ← cpp.member json key; cpp.to_nlohmann value

  -- `json.isMember(key) ? … : fallback`
  abbrev pub if_member : {A : Type 0} → Json → Text → (Json → Text → Option A) → A → Option A
  if_member json key read fallback = do
    present ← cpp.is_member json key
    elim present [ true ↦ read json key | false ↦ some fallback ]

  abbrev pub some_text_at : Json → Text → Option (Option Text)
  some_text_at json key = do value ← text_at json key; some (some value)

  abbrev pub texts_at : Json → Text → Option (List Text)
  texts_at json key = do value ← json_at json key; lib.texts_of value

  unfoldable pub parse_details : EndpointType → Json → Option EndpointDetails
  parse_details graphql details = do
    query ← text_at details (lit "query")
    variables ← if_member details (lit "variables") json_at empty_object
    schema_url ← if_member details (lit "schema_url") some_text_at none
    some (of_graphql (record { query = query; variables = variables; schema_url = schema_url }))
  parse_details soap details = do
    wsdl_url ← text_at details (lit "wsdl_url")
    operation ← text_at details (lit "operation")
    request_xml ← text_at details (lit "request_xml")
    some
        (of_soap (record { wsdl_url = wsdl_url; operation = operation; request_xml = request_xml }))
  parse_details websocket details = do
    connection_url ← text_at details (lit "connection_url")
    protocols ← if_member details (lit "protocols") texts_at []
    sample_messages ← if_member details (lit "sample_messages") json_at empty_array
    some (
        of_websocket (record {
          connection_url = connection_url;
          protocols = protocols;
          sample_messages = sample_messages;
        }))
  parse_details rest details = do
    method ← text_at details (lit "method")
    url_path ← text_at details (lit "url_path")
    query_params ← if_member details (lit "query_params") json_at empty_array
    headers ← if_member details (lit "headers") json_at empty_array
    body ← if_member details (lit "body") json_at empty_object
    body_raw ← if_member details (lit "body_raw") text_at []
    some (
        of_rest (record {
          method = http_method_from_string method;
          url_path = url_path;
          query_params = query_params;
          headers = headers;
          body = body;
          body_raw = body_raw;
        }))

  unfoldable pub parse_endpoint_payload : Json → Uuid → Uuid → Option Endpoint
  parse_endpoint_payload json project_id user_id = do
    kind ← text_at json (lit "type")
    status ← if_member json (lit "status") text_at (lit "draft")
    name ← json_at json (lit "name")
    description ← if_member json (lit "description") json_at empty_object
    details ← cpp.member json (lit "details")
    parsed ← parse_details (endpoint_type_from_string kind) details
    some (record {
      id = [];
      project_id = project_id;
      name = name;
      description = description;
      kind = endpoint_type_from_string kind;
      status = status;
      created_by = user_id;
      created_at = 0;
      updated_at = 0;
      details = parsed;
      tag_ids = [];
    })

  unfoldable pub to_json_value : Json → Json
  to_json_value value = or_null (cpp.read (lib.dump value))

  abbrev schema_url_pairs : Option Text → Dict Json
  schema_url_pairs none = []
  schema_url_pairs (some url) = (lit "schema_url", string url) ∷ []

  unfoldable pub details_pairs : EndpointDetails → Dict Json
  details_pairs (of_rest d) =
      (lit "method", string (http_method_to_string d.method))
      ∷ (lit "url_path", string d.url_path)
      ∷ (lit "query_params", to_json_value d.query_params)
      ∷ (lit "headers", to_json_value d.headers)
      ∷ (lit "body", to_json_value d.body)
      ∷ (lit "body_raw", string d.body_raw)
      ∷ []
  details_pairs (of_graphql d) =
      (lit "query", string d.query)
      ∷ (lit "variables", to_json_value d.variables)
      ∷ schema_url_pairs d.schema_url
  details_pairs (of_soap d) =
      (lit "wsdl_url", string d.wsdl_url)
      ∷ (lit "operation", string d.operation)
      ∷ (lit "request_xml", string d.request_xml)
      ∷ []
  details_pairs (of_websocket d) =
      (lit "connection_url", string d.connection_url)
      ∷ (lit "protocols", to_json_value (lib.of_texts d.protocols))
      ∷ (lit "sample_messages", to_json_value d.sample_messages)
      ∷ []

  unfoldable pub endpoint_pairs : Endpoint → Dict Json
  endpoint_pairs e =
      (lit "id", string e.id)
      ∷ (lit "project_id", string e.project_id)
      ∷ (lit "type", string (endpoint_type_to_string e.kind))
      ∷ (lit "status", string e.status)
      ∷ (lit "created_by", string e.created_by)
      ∷ (lit "name", to_json_value e.name)
      ∷ (lit "description", to_json_value e.description)
      ∷ (lit "details", object (object_of lib (details_pairs e.details)))
      ∷ []

  unfoldable pub endpoint_to_json : Endpoint → Json
  endpoint_to_json e = object (object_of lib (endpoint_pairs e))
