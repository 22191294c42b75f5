-- ===== src/Http/Payloads/Laws.antt =====
-- What the endpoint controller sends, and what it reads.
use nexustal.Domain.Endpoint.Laws.{
  endpoint_type_from_string-to_string, http_method_from_string-to_string,
}
use nexustal.Domain.Identity.{Uuid}
use nexustal.Storage.Details.Laws.{type_of}
use nexustal.Domain.Endpoint.{
  endpoint_type_to_string, http_method_to_string, websocket, of_websocket, Endpoint, rest, soap,
  of_soap, graphql, RestDetails, SoapDetails, WebsocketDetails, of_rest, of_graphql,
  EndpointDetails,
}
use nexustal.Http.Payloads.{
  texts_at, some_text_at, endpoint_pairs, if_member, endpoint_to_json, details_pairs, to_json_value,
  parse_endpoint_payload, json_at, parse_details, text_at,
}
use nexustal.Http.{JsonCpp}
use nexustal.Domain.Json.{
  empty_array, empty_object, get-object_of, object_of, object, string, Json, JsonLib,
}
use nexustal.Common.{
  ◌≡◌, refl, sym, ap, ◌∙◌, subst, Option, none, some, [], is_some, Text, lit, ◌==◌, Dict, lookup,
}

-- A value that JsonCpp carries over and back unchanged.
abbrev pub Carried : JsonLib → JsonCpp → Json → Type 0
Carried lib cpp v = cpp.to_nlohmann (to_json_value lib cpp v) ≡ some v

abbrev pub AllCarried : JsonLib → JsonCpp → EndpointDetails → Type 0
AllCarried lib cpp (of_rest d) =
    Carried lib cpp d.query_params × Carried lib cpp d.headers × Carried lib cpp d.body
AllCarried lib cpp (of_graphql d) = Carried lib cpp d.variables
AllCarried lib cpp (of_soap d) = Unit
AllCarried lib cpp (of_websocket d) =
    Carried lib cpp (lib.of_texts d.protocols) × Carried lib cpp d.sample_messages

module _ (lib : JsonLib) (cpp : JsonCpp) where
  member-pairs :
      (k : Text) (v : Json) (pairs : Dict Json)
      → lookup k pairs ≡ some v
      → cpp.member (object (object_of lib pairs)) k ≡ some v
  member-pairs k v pairs h =
      cpp.member_present k v (object_of lib pairs) (get-object_of lib k pairs ∙ h)

  is_member-pairs :
      (k : Text) (pairs : Dict Json)
      → cpp.is_member (object (object_of lib pairs)) k ≡ some (is_some (lookup k pairs))
  is_member-pairs k pairs =
      cpp.is_member_object k (object_of lib pairs)
      ∙ ap (λ o. some (is_some o)) (get-object_of lib k pairs)

  text_at-pairs :
      (k t : Text) (pairs : Dict Json)
      → lookup k pairs ≡ some (string t)
      → text_at lib cpp (object (object_of lib pairs)) k ≡ some t
  unfolding text_at
  text_at-pairs k t pairs h = rw (member-pairs k (string t) pairs h) (cpp.as_string_string t)

  json_at-pairs :
      (k : Text) (v : Json) (pairs : Dict Json)
      → lookup k pairs ≡ some (to_json_value lib cpp v)
      → Carried lib cpp v
      → json_at lib cpp (object (object_of lib pairs)) k ≡ some v
  unfolding json_at
  json_at-pairs k v pairs h c = rw (member-pairs k (to_json_value lib cpp v) pairs h) c

  -- A member that is there is read.
  if_member-present :
      {A : Type 0} (k : Text) (w : Json) (pairs : Dict Json) (read : Json → Text → Option A)
      (fallback a : A)
      → lookup k pairs ≡ some w
      → read (object (object_of lib pairs)) k ≡ some a
      → if_member lib cpp (object (object_of lib pairs)) k read fallback ≡ some a
  if_member-present k w pairs read fallback a h r = rw (is_member-pairs k pairs, h) r

  if_member-absent :
      {A : Type 0} (k : Text) (pairs : Dict Json) (read : Json → Text → Option A) (fallback : A)
      → lookup k pairs ≡ none
      → if_member lib cpp (object (object_of lib pairs)) k read fallback ≡ some fallback
  if_member-absent k pairs read fallback h = rw (is_member-pairs k pairs, h) refl

  parse_details-rest :
      (d : RestDetails)
      → AllCarried lib cpp (of_rest d)
      → parse_details lib cpp rest (object (object_of lib (details_pairs lib cpp (of_rest d))))
        ≡ some (of_rest d)
  unfolding parse_details details_pairs lit ◌==◌ lookup
  parse_details-rest d (query, headers, body) =
      let pairs : Dict Json = details_pairs lib cpp (of_rest d) in
      rw
        (
          text_at-pairs (lit "method") (http_method_to_string d.method) pairs refl,
          text_at-pairs (lit "url_path") d.url_path pairs refl,
          if_member-present (lit "query_params") _ pairs (json_at lib cpp) empty_array
              d.query_params refl
              (json_at-pairs (lit "query_params") d.query_params pairs refl query),
          if_member-present (lit "headers") _ pairs (json_at lib cpp) empty_array d.headers refl
              (json_at-pairs (lit "headers") d.headers pairs refl headers),
          if_member-present (lit "body") _ pairs (json_at lib cpp) empty_object d.body refl
              (json_at-pairs (lit "body") d.body pairs refl body),
          if_member-present (lit "body_raw") _ pairs (text_at lib cpp) [] d.body_raw refl
              (text_at-pairs (lit "body_raw") d.body_raw pairs refl),
          http_method_from_string-to_string d.method,
        )
        refl

  parse_details-soap :
      (d : SoapDetails)
      → parse_details lib cpp soap (object (object_of lib (details_pairs lib cpp (of_soap d))))
        ≡ some (of_soap d)
  unfolding parse_details details_pairs lit ◌==◌ lookup
  parse_details-soap d =
      let pairs : Dict Json = details_pairs lib cpp (of_soap d) in
      rw
        (
          text_at-pairs (lit "wsdl_url") d.wsdl_url pairs refl,
          text_at-pairs (lit "operation") d.operation pairs refl,
          text_at-pairs (lit "request_xml") d.request_xml pairs refl,
        )
        refl

  parse_details-websocket :
      (d : WebsocketDetails)
      → AllCarried lib cpp (of_websocket d)
      → parse_details lib cpp websocket
          (object (object_of lib (details_pairs lib cpp (of_websocket d))))
        ≡ some (of_websocket d)
  unfolding parse_details details_pairs lit ◌==◌ lookup
  parse_details-websocket d (protocols, samples) =
      let pairs : Dict Json = details_pairs lib cpp (of_websocket d) in
      rw
        (
          text_at-pairs (lit "connection_url") d.connection_url pairs refl,
          if_member-present (lit "protocols") _ pairs (texts_at lib cpp) [] d.protocols refl (
              rw (json_at-pairs (lit "protocols") (lib.of_texts d.protocols) pairs refl protocols)
                (lib.texts_of-of_texts d.protocols)),
          if_member-present (lit "sample_messages") _ pairs (json_at lib cpp) empty_array
              d.sample_messages refl
              (json_at-pairs (lit "sample_messages") d.sample_messages pairs refl samples),
        )
        refl

  abbrev graphql_details : Text → Json → Option Text → EndpointDetails
  graphql_details query variables schema_url =
      of_graphql (record { query = query; variables = variables; schema_url = schema_url })

  parse_details-graphql :
      (query : Text) (variables : Json) (schema_url : Option Text)
      → Carried lib cpp variables
      → parse_details lib cpp graphql (
          object
            (object_of lib (details_pairs lib cpp (graphql_details query variables schema_url))))
        ≡ some (graphql_details query variables schema_url)
  unfolding parse_details details_pairs lit ◌==◌ lookup
  parse_details-graphql query variables none h =
      let pairs : Dict Json = details_pairs lib cpp (graphql_details query variables none) in
      rw
        (
          text_at-pairs (lit "query") query pairs refl,
          if_member-present (lit "variables") _ pairs (json_at lib cpp) empty_object variables refl
              (json_at-pairs (lit "variables") variables pairs refl h),
          if_member-absent (lit "schema_url") pairs (some_text_at lib cpp) none refl,
        )
        refl
  parse_details-graphql query variables (some url) h =
      let pairs : Dict Json = details_pairs lib cpp (graphql_details query variables (some url)) in
      rw
        (
          text_at-pairs (lit "query") query pairs refl,
          if_member-present (lit "variables") _ pairs (json_at lib cpp) empty_object variables refl
              (json_at-pairs (lit "variables") variables pairs refl h),
          if_member-present (lit "schema_url") _ pairs (some_text_at lib cpp) none (some url) refl
              (rw (text_at-pairs (lit "schema_url") url pairs refl) refl),
        )
        refl

  parse_details-pairs :
      (d : EndpointDetails)
      → AllCarried lib cpp d
      → parse_details lib cpp (type_of d) (object (object_of lib (details_pairs lib cpp d)))
        ≡ some d
  parse_details-pairs (of_rest d) h = parse_details-rest d h
  parse_details-pairs (of_graphql d) h = parse_details-graphql d.query d.variables d.schema_url h
  parse_details-pairs (of_soap d) h = parse_details-soap d
  parse_details-pairs (of_websocket d) h = parse_details-websocket d h

  -- What the controller sends of an endpoint can be sent back to it: it is read as the endpoint,
  -- under the project and user of the request, without identifier, times and tags. The details are
  -- of the endpoint's type, and JsonCpp carries the JSON values over and back unchanged.
  pub parse_endpoint_payload-to_json :
      (e : Endpoint) (project_id user_id : Uuid)
      → e.kind ≡ type_of e.details
      → Carried lib cpp e.name
      → Carried lib cpp e.description
      → AllCarried lib cpp e.details
      → parse_endpoint_payload lib cpp (endpoint_to_json lib cpp e) project_id user_id
        ≡ some (record e {
          id = [];
          project_id = project_id;
          created_by = user_id;
          created_at = 0;
          updated_at = 0;
          tag_ids = [];
        })
  unfolding parse_endpoint_payload endpoint_to_json endpoint_pairs lit ◌==◌ lookup
  parse_endpoint_payload-to_json e project_id user_id coherent name description details =
      let pairs : Dict Json = endpoint_pairs lib cpp e in
      rw
        (
          text_at-pairs (lit "type") (endpoint_type_to_string e.kind) pairs refl,
          if_member-present (lit "status") _ pairs (text_at lib cpp) (lit "draft") e.status refl
              (text_at-pairs (lit "status") e.status pairs refl),
          json_at-pairs (lit "name") e.name pairs refl name,
          if_member-present (lit "description") _ pairs (json_at lib cpp) empty_object e.description
              refl (json_at-pairs (lit "description") e.description pairs refl description),
          member-pairs (lit "details") (object (object_of lib (details_pairs lib cpp e.details)))
              pairs refl,
          endpoint_type_from_string-to_string e.kind,
          subst
              (λ k.
                parse_details lib cpp k (object (object_of lib (details_pairs lib cpp e.details)))
                ≡ some e.details)
              (sym coherent) (parse_details-pairs e.details details),
        )
        refl
