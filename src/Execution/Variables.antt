-- ===== src/Execution/Variables.antt =====
-- The dynamic variables of backend/application/execution/dynamic_variables.hpp, and what
-- backend/application/execution/request_executor.cpp substitutes into an endpoint. The draws of a
-- call of `resolve` are numbered by the calls so far, and within it by the occurrences.
use nexustal.Domain.Endpoint.{of_websocket, of_soap, of_graphql, of_rest, EndpointDetails, Endpoint}
use nexustal.Domain.Json.{
  push_back, cons, Items, nil, null, array, number, boolean, end, member, object, Members, string,
  JsonLib, Json,
}
pub mod Laws
use nexustal.Execution.Replace.{replace_all}
use nexustal.Common.{
  ℕ, zero, suc, ◌+◌, ◌-◌, ◌*◌, ◌/◌, ◌%◌, ◌^◌, ◌≤◌, ◌<◌, String, ◌≡◌, refl, sym, ap, ◌∙◌, subst, ◌≢◌,
  ◌↔◌, ◌⊎◌, inl, inr, Bool, true, false, not, ◌&&◌, ◌||◌, Option, none, some, List, [], ◌∷◌, ◌++◌,
  append_assoc, append-nil, arith, ltb, leb, eqb, if◌then◌else◌, Bool-cases, Option-cases, is_some,
  Text, lit, ◌==◌, is_empty, eq_iff, eq_refl, ==-false, length, length-append, find_if, get_elem?,
  modify, take-length, drop-length, take, drop, drop-zero, take-append, drop-append, update_where,
  count_if, count_if-pos, find_if-any, find_if-holds, insert_desc, order_desc, any-insert_desc,
  any-order_desc, All-insert_desc, All-order_desc, find_if-All, any-select, any-false, any_mono,
  any-append, All-append, All-select_self, find_if_unique, any, select, All, All-select, Dict,
  lookup, put, without, lookup-put, lookup-without, Action, ◌>>=◌, ◌>>◌, pure,
}

-- The texts that the generators give.
pub record Draws : Type 0 where
  pub random_int : ℕ → Text
  pub guid : ℕ → Text
  pub timestamp : ℕ → Text
  pub iso_timestamp : ℕ → Text
  pub email_number : ℕ → Text

abbrev pub random_email : Draws → ℕ → Text
random_email draws call = lit "user" ++ (draws.email_number call ++ lit "@example.test")

unfoldable pub resolve_with : Draws → Text → Text
unfolding replace_all
resolve_with draws input =
    let ints = replace_all input (lit "{{$randomInt}}") draws.random_int in
    let guids = replace_all ints (lit "{{$guid}}") draws.guid in
    let times = replace_all guids (lit "{{$timestamp}}") draws.timestamp in
    let dates = replace_all times (lit "{{$isoTimestamp}}") draws.iso_timestamp in
    replace_all dates (lit "{{$randomEmail}}") (random_email draws)

-- `merged[key] = value` for each member of the source.
unfoldable pub merge_into : JsonLib → Members → Members → Members
merge_into lib target end = target
merge_into lib target (member k v rest) = merge_into lib (lib.put k v target) rest

abbrev pub merge_object_into : JsonLib → Members → Json → Members
merge_object_into lib target (object source) = merge_into lib target source
merge_object_into lib target null = target
merge_object_into lib target (boolean _) = target
merge_object_into lib target (number _) = target
merge_object_into lib target (string _) = target
merge_object_into lib target (array _) = target

abbrev pub members_or_none : Json → Members
members_or_none (object m) = m
members_or_none null = end
members_or_none (boolean _) = end
members_or_none (number _) = end
members_or_none (string _) = end
members_or_none (array _) = end

unfoldable pub apply_overrides : JsonLib → Json → Json → Json
unfolding merge_into
apply_overrides lib base overrides = object (merge_object_into lib (members_or_none base) overrides)

-- What stands for a variable in a text.
abbrev pub replacement_of : JsonLib → Json → Text
replacement_of lib (string t) = t
replacement_of lib null = lib.dump null
replacement_of lib (boolean b) = lib.dump (boolean b)
replacement_of lib (number t) = lib.dump (number t)
replacement_of lib (array vs) = lib.dump (array vs)
replacement_of lib (object m) = lib.dump (object m)

abbrev pub token_of : Text → Text
token_of key = lit "{{" ++ (key ++ lit "}}")

-- The loop over the variables.
unfoldable pub substitute_members : JsonLib → Members → Text → Text
unfolding replace_all
substitute_members lib end result = result
substitute_members lib (member k v rest) result =
    substitute_members lib rest (replace_all result (token_of k) (λ call. replacement_of lib v))

module _ (lib : JsonLib) (draws : ℕ → Draws) where
  unfoldable pub resolve : Text → Action ℕ Text
  unfolding resolve_with
  resolve input call = (resolve_with (draws call) input, suc call)

  -- `resolveJson` and `substituteJson` share their shape: `f` treats the strings.
  module _ (f : Text → Action ℕ Text) where
    unfoldable mutual
      pub map_json : Json → Action ℕ Json
      map_json (string t) = do r ← f t; pure (string r)
      map_json (array items) = do r ← map_items nil items; pure (array r)
      map_json (object members) = do r ← map_members end members; pure (object r)
      map_json null = pure null
      map_json (boolean b) = pure (boolean b)
      map_json (number t) = pure (number t)

      pub map_items : Items → Items → Action ℕ Items
      map_items result nil = pure result
      map_items result (cons item items) = do
        r ← map_json item
        map_items (push_back result r) items

      pub map_members : Members → Members → Action ℕ Members
      map_members result end = pure result
      map_members result (member k v rest) = do
        r ← map_json v
        map_members (lib.put k r result) rest

  unfoldable pub resolve_json : Json → Action ℕ Json
  unfolding map_json resolve
  resolve_json input = map_json resolve input

  unfoldable pub substitute_string : Json → Text → Action ℕ Text
  unfolding resolve substitute_members
  substitute_string variables input = do
    result ← resolve input
    pure (substitute_members lib (members_or_none variables) result)

  unfoldable pub substitute_json : Json → Json → Action ℕ Json
  unfolding map_json substitute_string
  substitute_json variables input = map_json (substitute_string variables) input

  -- The loop over the protocols of a web socket.
  unfoldable pub substitute_protocols : Json → List Text → Action ℕ (List Text)
  unfolding substitute_string
  substitute_protocols variables [] = pure []
  substitute_protocols variables (protocol ∷ protocols) = do
    r ← substitute_string variables protocol
    rest ← substitute_protocols variables protocols
    pure (r ∷ rest)

  unfoldable pub substitute_optional : Json → Option Text → Action ℕ (Option Text)
  unfolding substitute_string
  substitute_optional variables none = pure none
  substitute_optional variables (some t) = do r ← substitute_string variables t; pure (some r)

  -- The visitor of `substituteEndpoint`.
  unfoldable pub substitute_details : Json → EndpointDetails → Action ℕ EndpointDetails
  unfolding substitute_string substitute_json substitute_optional substitute_protocols
  substitute_details variables (of_rest d) = do
    url_path ← substitute_string variables d.url_path
    query_params ← substitute_json variables d.query_params
    headers ← substitute_json variables d.headers
    body ← substitute_json variables d.body
    body_raw ← substitute_string variables d.body_raw
    pure (
        of_rest (record d {
          url_path = url_path;
          query_params = query_params;
          headers = headers;
          body = body;
          body_raw = body_raw;
        }))
  substitute_details variables (of_graphql d) = do
    query ← substitute_string variables d.query
    values ← substitute_json variables d.variables
    schema_url ← substitute_optional variables d.schema_url
    pure (of_graphql (record { query = query; variables = values; schema_url = schema_url }))
  substitute_details variables (of_soap d) = do
    wsdl_url ← substitute_string variables d.wsdl_url
    operation ← substitute_string variables d.operation
    request_xml ← substitute_string variables d.request_xml
    pure
        (of_soap (record { wsdl_url = wsdl_url; operation = operation; request_xml = request_xml }))
  substitute_details variables (of_websocket d) = do
    connection_url ← substitute_string variables d.connection_url
    protocols ← substitute_protocols variables d.protocols
    sample_messages ← substitute_json variables d.sample_messages
    pure (
        of_websocket (record {
          connection_url = connection_url;
          protocols = protocols;
          sample_messages = sample_messages;
        }))

  unfoldable pub substitute_endpoint : Json → Endpoint → Action ℕ Endpoint
  unfolding substitute_json substitute_details
  substitute_endpoint variables endpoint = do
    name ← substitute_json variables endpoint.name
    description ← substitute_json variables endpoint.description
    details ← substitute_details variables endpoint.details
    pure (record endpoint { name = name; description = description; details = details })
