-- ===== src/Execution/Requests.antt =====
-- RequestExecutor::execute of backend/application/execution/request_executor.cpp. The transport is a
-- parameter.
use nexustal.Domain.Identity.{Timestamp, Uuid}
use nexustal.Execution.Scripts.{run_script, Script}
use nexustal.Execution.Variables.{apply_overrides, resolve_json, substitute_endpoint, Draws}
use nexustal.Domain.Endpoint.{endpoint_type_to_string, Endpoint}
use nexustal.Execution.Bundles.{
  ExecutionResult, RequestBundle, HttpExecutionResponse, TestAssertion,
}
use nexustal.Domain.Json.{
  null, string, number, boolean, nil, object_of, array, cons, object, empty_object, Items, JsonLib,
  Json,
}
use nexustal.Execution.Environments.{resolve_variables, EnvironmentCache}
use nexustal.Common.{
  ◌>>?◌, ℕ, Option, none, some, List, [], ◌∷◌, ◌++◌, if◌then◌else◌, Text, lit, ◌==◌, is_empty,
  length, Action,
}

-- The fields of `RequestExecutor`; nothing stands for an exception of the transport.
pub record RequestExecutor (S : Type 0) : Type 0 where
  pub environments : Option (EnvironmentCache S)
  pub sandbox : Option (Text → Text → Script)
  pub transport : Option (Endpoint → Json → Action S (Option HttpExecutionResponse))

abbrev or_empty_object : Option Json → Json
or_empty_object none = empty_object
or_empty_object (some json) = json

unfoldable pub parse_body_json : JsonLib → Text → Json
parse_body_json lib body = or_empty_object (lib.parse body)

unfoldable pub request_context : JsonLib → Endpoint → Uuid → Json → Json
request_context lib endpoint user_id variables = object (
    object_of lib (
      (lit "environment", variables)
      ∷ (
        lit "request",
        object (
            object_of lib (
              (lit "endpoint_id", string endpoint.id)
              ∷ (lit "type", string (endpoint_type_to_string endpoint.kind))
              ∷ [])),
      )
      ∷ (lit "user_id", string user_id)
      ∷ []))

unfoldable pub response_context :
    JsonLib → (decimal : ℕ → Text) → HttpExecutionResponse → Json → Json
response_context lib decimal response variables = object (
    object_of lib (
      (lit "environment", variables)
      ∷ (
        lit "response",
        object (
            object_of lib (
              (lit "status", number (decimal response.status_code))
              ∷ (lit "headers", response.headers)
              ∷ (lit "body", string response.body)
              ∷ (lit "jsonBody", parse_body_json lib response.body)
              ∷ (lit "responseTimeMs", number response.response_time_ms)
              ∷ [])),
      )
      ∷ []))

abbrev newline : Text
newline = 10 ∷ []

unfoldable pub wrapped_tests : Text → Text
wrapped_tests script =
    lit "(() => {"
    ++ (newline
        ++ (script
            ++ (newline ++ (lit "return globalThis.__nt_tests || [];" ++ (newline ++ lit "})()")))))

-- One result of the tests; nothing where a read of a member throws.
unfoldable pub test_assertion : JsonLib → Json → Option TestAssertion
test_assertion lib item = lib.text_value item (lit "name") [] >>? λ name.
    lib.text_value item (lit "status") [] >>? λ status.
    lib.text_value item (lit "message") [] >>? λ message.
    some (record { name = name; passed = status == lit "passed"; error_message = message })

unfoldable pub test_assertions : JsonLib → Items → Option (List TestAssertion)
test_assertions lib nil = some []
test_assertions lib (cons item items) =
    test_assertion lib item >>? λ first. test_assertions lib items >>? λ later. some (first ∷ later)

abbrev pub tests_of : JsonLib → Json → Option (List TestAssertion)
tests_of lib (array items) = test_assertions lib items
tests_of lib null = some []
tests_of lib (boolean _) = some []
tests_of lib (number _) = some []
tests_of lib (string _) = some []
tests_of lib (object _) = some []

abbrev tests_of_result : JsonLib → Option Json → Option (List TestAssertion)
tests_of_result lib none = none
tests_of_result lib (some raw) = tests_of lib raw

module _ {S : Type 0} (lib : JsonLib) (draws : ℕ → Draws) (decimal : ℕ → Text)
    (executor : RequestExecutor S) where
  open executor use {environments, sandbox, transport}

  -- The variables after the script before the request, or nothing where it throws.
  abbrev pub prepared : Option Json × Json → Option Json
  prepared (none, variables) = none
  prepared (some result, variables) = some variables

  unfoldable pub before_request : RequestBundle → Uuid → Json → Option Json
  before_request bundle user_id variables =
      if is_empty bundle.pre_request_script
      then some variables
      else prepared (
          run_script lib sandbox bundle.pre_request_script variables
            (request_context lib bundle.endpoint user_id variables))

  unfoldable pub after_response :
      RequestBundle → HttpExecutionResponse → Json → Option (List TestAssertion)
  after_response bundle response variables =
      if is_empty bundle.test_script
      then some []
      else tests_of_result lib
          (run_script lib sandbox (wrapped_tests bundle.test_script) variables
            (response_context lib decimal response variables)).0

  abbrev pub result_of :
      (id : Uuid) (now : Timestamp)
      → Endpoint
      → HttpExecutionResponse
      → Option (List TestAssertion)
      → Option ExecutionResult
  result_of id now endpoint response none = none
  result_of id now endpoint response (some tests) = some (record {
    id = id;
    endpoint_id = endpoint.id;
    status_code = response.status_code;
    response_time_ms = response.response_time_ms;
    payload_size = length response.body;
    response_headers = response.headers;
    response_body = response.body;
    test_results = tests;
    executed_at = now;
  })

  abbrev pub finish :
      (id : Uuid) (now : Timestamp)
      → RequestBundle
      → Endpoint
      → Json
      → Option HttpExecutionResponse
      → Option ExecutionResult
  finish id now bundle endpoint variables none = none
  finish id now bundle endpoint variables (some response) =
      result_of id now endpoint response (after_response bundle response variables)

  -- The state of the caches and repositories, and the number of draws so far.
  abbrev pub send_request :
      (id : Uuid) (now : Timestamp)
      → (Endpoint → Json → Action S (Option HttpExecutionResponse))
      → RequestBundle
      → Option Json
      → Action (S × ℕ) (Option ExecutionResult)
  send_request id now transport bundle none (s, n) = (none, (s, n))
  send_request id now transport bundle (some variables) (s, n) =
      let (endpoint, m) = substitute_endpoint lib draws variables bundle.endpoint n in
      let (response, s') = transport endpoint variables s in
      (finish id now bundle endpoint variables response, (s', m))

  abbrev pub execute_with :
      (id : Uuid) (now : Timestamp)
      → EnvironmentCache S
      → (Endpoint → Json → Action S (Option HttpExecutionResponse))
      → RequestBundle
      → Uuid
      → Action (S × ℕ) (Option ExecutionResult)
  execute_with id now cache transport bundle user_id (s, n) =
      let (resolved, s') =
        resolve_variables lib cache bundle.endpoint.project_id bundle.environment_id s in
      let (overrides, m) = resolve_json lib draws bundle.overrides n in
      send_request id now transport bundle
        (before_request bundle user_id (apply_overrides lib resolved overrides)) (s', m)

  abbrev execute_checked :
      (id : Uuid) (now : Timestamp)
      → Option (EnvironmentCache S)
      → Option (Endpoint → Json → Action S (Option HttpExecutionResponse))
      → RequestBundle
      → Uuid
      → Action (S × ℕ) (Option ExecutionResult)
  execute_checked id now none _ bundle user_id s = (none, s)
  execute_checked id now (some cache) none bundle user_id s = (none, s)
  execute_checked id now (some cache) (some transport) bundle user_id s =
      execute_with id now cache transport bundle user_id s

  unfoldable pub execute :
      (id : Uuid) (now : Timestamp) → RequestBundle → Uuid → Action (S × ℕ) (Option ExecutionResult)
  execute id now bundle user_id = execute_checked id now environments transport bundle user_id
