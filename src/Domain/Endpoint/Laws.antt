-- ===== src/Domain/Endpoint/Laws.antt =====
-- The names under which endpoint types and request methods are stored.
use nexustal.Common.{◌≡◌, refl, lit, ◌==◌}
use nexustal.Domain.Endpoint.{
  EndpointType, rest, graphql, soap, websocket, HttpMethod, get, post, put, delete, patch, head,
  options, endpoint_type_to_string, endpoint_type_from_string, http_method_to_string,
  http_method_from_string,
}

-- Reading back the printed name of an endpoint type gives that type.
pub endpoint_type_from_string-to_string :
    (t : EndpointType) → endpoint_type_from_string (endpoint_type_to_string t) ≡ t
unfolding endpoint_type_from_string endpoint_type_to_string lit ◌==◌
endpoint_type_from_string-to_string rest = refl
endpoint_type_from_string-to_string graphql = refl
endpoint_type_from_string-to_string soap = refl
endpoint_type_from_string-to_string websocket = refl

-- Reading back the printed name of a request method gives that method.
pub http_method_from_string-to_string :
    (m : HttpMethod) → http_method_from_string (http_method_to_string m) ≡ m
unfolding http_method_from_string http_method_to_string lit ◌==◌
http_method_from_string-to_string get = refl
http_method_from_string-to_string post = refl
http_method_from_string-to_string put = refl
http_method_from_string-to_string delete = refl
http_method_from_string-to_string patch = refl
http_method_from_string-to_string head = refl
http_method_from_string-to_string options = refl
