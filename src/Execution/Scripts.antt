-- ===== src/Execution/Scripts.antt =====
-- Scripts: RequestExecutor::runScript of backend/application/execution/request_executor.cpp, and
-- the native handlers of backend/infrastructure/sandbox/nt_api_bindings.cpp. The QuickJS engine is
-- a parameter: what it does with a script is the sequence of its calls of the handlers.
pub mod Laws
use nexustal.Execution.Variables.{members_or_none}
use nexustal.Execution.Environments.{parse_value}
use nexustal.Domain.Json.{
  null, array, string, number, boolean, get, object, empty_object, Json, JsonLib,
}
use nexustal.Common.{
  ◌>>?◌, ℕ, zero, suc, ◌+◌, ◌-◌, ◌*◌, ◌/◌, ◌%◌, ◌^◌, ◌≤◌, ◌<◌, String, ◌≡◌, refl, sym, ap, ◌∙◌,
  subst, ◌≢◌, ◌↔◌, ◌⊎◌, inl, inr, Bool, true, false, not, ◌&&◌, ◌||◌, Option, none, some, List, [],
  ◌∷◌, ◌++◌, append_assoc, append-nil, arith, ltb, leb, eqb, if◌then◌else◌, Bool-cases,
  Option-cases, is_some, Text, lit, ◌==◌, is_empty, eq_iff, eq_refl, ==-false, length,
  length-append, find_if, get_elem?, modify, take-length, drop-length, take, drop, drop-zero,
  take-append, drop-append, update_where, count_if, count_if-pos, find_if-any, find_if-holds,
  insert_desc, order_desc, any-insert_desc, any-order_desc, All-insert_desc, All-order_desc,
  find_if-All, any-select, any-false, any_mono, any-append, All-append, All-select_self,
  find_if_unique, any, select, All, All-select, Dict, lookup, put, without, lookup-put,
  lookup-without, Action, ◌>>=◌, ◌>>◌, pure,
}

-- A handler's answer goes on to the script, or nothing where it throws. At the end the script has
-- a result, or nothing where the engine throws (an error, or the time limit).
pub data Script : Type 0 where
  finished : Option Text → Script
  logs : Text → (Option Text → Script) → Script
  gets : Text → (Option Text → Script) → Script
  sets : Text → (Option Text → Script) → Script

module _ (lib : JsonLib) where
  -- `parsed.is_object() ? parsed.value("key", …) : …`
  abbrev object_key : Json → Option Text
  object_key (object m) = lib.text_value (object m) (lit "key") []
  object_key null = some []
  object_key (boolean _) = some []
  object_key (number _) = some []
  object_key (string _) = some []
  object_key (array _) = some []

  abbrev pub payload_key : Option Json → Option Text
  payload_key none = some []
  payload_key (some json) = object_key json

  abbrev pub dumped : Option Json → Text
  dumped none = lit "null"
  dumped (some v) = lib.dump v

  abbrev object_value : Json → Text
  object_value (object m) = dumped (get (lit "value") m)
  object_value null = lit "null"
  object_value (boolean _) = lit "null"
  object_value (number _) = lit "null"
  object_value (string _) = lit "null"
  object_value (array _) = lit "null"

  abbrev pub payload_value : Option Json → Text
  payload_value none = lit "null"
  payload_value (some json) = object_value json

  -- The bindings that `runScript` gives.
  unfoldable pub environment_get : Json → Text → Text
  environment_get variables key = dumped (get key (members_or_none variables))

  unfoldable pub environment_set : Json → Text → Text → Option Json
  environment_set variables key value = lib.assign key (parse_value lib value) variables

  abbrev or_null_text : Text → Text
  or_null_text value = if is_empty value then lit "null" else value

  unfoldable pub env_get_handler : Json → Text → Option Text
  env_get_handler variables payload =
      payload_key (lib.parse payload) >>? λ key. some (or_null_text (environment_get variables key))

  -- The variables afterwards; the answer is "null".
  unfoldable pub env_set_handler : Json → Text → Option Json
  env_set_handler variables payload = payload_key (lib.parse payload) >>? λ key.
      environment_set variables key (payload_value (lib.parse payload))

  abbrev pub after_set : Json → Option Json → Json
  after_set variables none = variables
  after_set variables (some changed) = changed

  abbrev pub set_answer : Option Json → Option Text
  set_answer none = none
  set_answer (some changed) = some (lit "null")

  -- The result of a script, and the variables that its calls leave.
  unfoldable pub interact : Script → Json → Option Text × Json
  interact (finished result) variables = (result, variables)
  interact (logs payload k) variables = interact (k (some (lit "null"))) variables
  interact (gets payload k) variables = interact (k (env_get_handler variables payload)) variables
  interact (sets payload k) variables =
      interact (k (set_answer (env_set_handler variables payload)))
        (after_set variables (env_set_handler variables payload))

  -- A discarded result is an empty object.
  abbrev parsed_result : Option Json → Json
  parsed_result none = empty_object
  parsed_result (some json) = json

  abbrev pub script_result : Option Text → Option Json
  script_result none = none
  script_result (some text) = some (parsed_result (lib.parse text))

  -- The sandbox runs a script on the printed context; nothing stands for a factory that is not
  -- configured, or a build without the engine.
  unfoldable pub run_script :
      Option (Text → Text → Script) → Text → Json → Json → Option Json × Json
  run_script none script variables context = (none, variables)
  run_script (some sandbox) script variables context =
      let (result, changed) = interact (sandbox script (lib.dump context)) variables in
      (script_result result, changed)
