-- ===== src/Domain/Endpoint.antt =====
-- backend/domain/endpoint.hpp.
pub mod Laws
use nexustal.Common.{◌≡◌, Option, none, List, [], Text, lit, ◌==◌, if◌then◌else◌}
use nexustal.Domain.Identity.{Uuid, Timestamp}
use nexustal.Domain.Json.{Json, empty_object, empty_array}

pub data EndpointType : Type 0 where
  rest graphql soap websocket : EndpointType

pub data HttpMethod : Type 0 where
  get post put delete patch head options : HttpMethod

pub record RestDetails : Type 0 where
  pub method : HttpMethod
  pub url_path : Text
  pub query_params : Json
  pub headers : Json
  pub body : Json
  pub body_raw : Text

pub record GraphqlDetails : Type 0 where
  pub query : Text
  pub variables : Json
  pub schema_url : Option Text

pub record SoapDetails : Type 0 where
  pub wsdl_url : Text
  pub operation : Text
  pub request_xml : Text

pub record WebsocketDetails : Type 0 where
  pub connection_url : Text
  pub protocols : List Text
  pub sample_messages : Json

-- The variant.
pub data EndpointDetails : Type 0 where
  of_rest : RestDetails → EndpointDetails
  of_graphql : GraphqlDetails → EndpointDetails
  of_soap : SoapDetails → EndpointDetails
  of_websocket : WebsocketDetails → EndpointDetails

pub record Endpoint : Type 0 where
  pub id : Uuid
  pub project_id : Uuid
  pub name : Json
  pub description : Json
  pub kind : EndpointType
  pub status : Text
  pub created_by : Uuid
  pub created_at : Timestamp
  pub updated_at : Timestamp
  pub details : EndpointDetails
  pub tag_ids : List Uuid

-- The default member initializers.
abbrev pub default_rest : RestDetails
default_rest = record {
  method = get;
  url_path = [];
  query_params = empty_array;
  headers = empty_array;
  body = empty_object;
  body_raw = [];
}

abbrev pub default_graphql : GraphqlDetails
default_graphql = record { query = []; variables = empty_object; schema_url = none }

abbrev pub default_soap : SoapDetails
default_soap = record { wsdl_url = []; operation = []; request_xml = [] }

abbrev pub default_websocket : WebsocketDetails
default_websocket = record { connection_url = []; protocols = []; sample_messages = empty_array }

unfoldable pub endpoint_type_to_string : EndpointType → Text
endpoint_type_to_string graphql = lit "GRAPHQL"
endpoint_type_to_string soap = lit "SOAP"
endpoint_type_to_string websocket = lit "WEBSOCKET"
endpoint_type_to_string rest = lit "REST"

unfoldable pub endpoint_type_from_string : Text → EndpointType
endpoint_type_from_string value =
    if value == lit "GRAPHQL"
    then graphql
    else if value == lit "SOAP"
    then soap
    else if value == lit "WEBSOCKET"
    then websocket
    else rest

unfoldable pub http_method_to_string : HttpMethod → Text
http_method_to_string post = lit "POST"
http_method_to_string put = lit "PUT"
http_method_to_string delete = lit "DELETE"
http_method_to_string patch = lit "PATCH"
http_method_to_string head = lit "HEAD"
http_method_to_string options = lit "OPTIONS"
http_method_to_string get = lit "GET"

unfoldable pub http_method_from_string : Text → HttpMethod
http_method_from_string value =
    if value == lit "POST"
    then post
    else if value == lit "PUT"
    then put
    else if value == lit "DELETE"
    then delete
    else if value == lit "PATCH"
    then patch
    else if value == lit "HEAD"
    then head
    else if value == lit "OPTIONS"
    then options
    else get
