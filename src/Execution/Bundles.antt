-- ===== src/Execution/Bundles.antt =====
-- backend/application/execution/request_bundle.hpp, and the response of request_executor.hpp. A time
-- in milliseconds is its printed form.
use nexustal.Domain.Json.{Json}
use nexustal.Domain.Identity.{Timestamp, Uuid}
use nexustal.Domain.Endpoint.{Endpoint}
use nexustal.Common.{ℕ, Bool, Option, List, Text}

pub record RequestBundle : Type 0 where
  pub endpoint : Endpoint
  pub environment_id : Option Uuid
  pub pre_request_script : Text
  pub test_script : Text
  pub overrides : Json

pub record TestAssertion : Type 0 where
  pub name : Text
  pub passed : Bool
  pub error_message : Text

pub record HttpExecutionResponse : Type 0 where
  pub status_code : ℕ
  pub response_time_ms : Text
  pub headers : Json
  pub body : Text

pub record ExecutionResult : Type 0 where
  pub id : Uuid
  pub endpoint_id : Uuid
  pub status_code : ℕ
  pub response_time_ms : Text
  pub payload_size : ℕ
  pub response_headers : Json
  pub response_body : Text
  pub test_results : List TestAssertion
  pub executed_at : Timestamp
