-- ===== src/Sandbox/Api.antt =====
-- installNtApi of backend/infrastructure/sandbox/nt_api_bindings.cpp with the bindings that
-- RequestExecutor::runScript gives, and the functions of the installed script that call them. The
-- printing and reading of JSON by the engine are a parameter.
pub mod Laws
use nexustal.Sandbox.Script.{Engine, Run, Answer, answered, internal_error, reference_error}
use nexustal.Sandbox.{
  Sandbox, Handler, Reply, replied, failed, Outcome, returned, threw, register_function,
  inject_variable, execute_program, invoke_native,
}
use nexustal.Execution.Scripts.{env_get_handler, env_set_handler, set_answer, after_set}
use nexustal.Domain.Json.{Json, JsonLib, object, member, end, string, array, Items}
use nexustal.Common.{
  ℕ, zero, suc, ◌+◌, ◌-◌, ◌*◌, ◌/◌, ◌%◌, ◌^◌, ◌≤◌, ◌<◌, String, ◌≡◌, refl, sym, ap, ◌∙◌, subst, ◌≢◌,
  ◌↔◌, ◌⊎◌, inl, inr, Bool, true, false, not, ◌&&◌, ◌||◌, Option, none, some, List, [], ◌∷◌, ◌++◌,
  append_assoc, append-nil, arith, ltb, leb, eqb, if◌then◌else◌, Bool-cases, Option-cases, is_some,
  Text, lit, ◌==◌, is_empty, eq_iff, eq_refl, ==-false, length, length-append, find_if, get_elem?,
  modify, take-length, drop-length, take, drop, drop-zero, take-append, drop-append, update_where,
  count_if, count_if-pos, find_if-any, find_if-holds, insert_desc, order_desc, any-insert_desc,
  any-order_desc, All-insert_desc, All-order_desc, find_if-All, any-select, any-false, any_mono,
  any-append, All-append, All-select_self, find_if_unique, any, select, All, All-select, Dict,
  lookup, put, without, lookup-put, lookup-without, Action, ◌>>=◌, ◌>>◌, pure,
}

abbrev logged : JsonLib → Text → Option Json → Text
logged lib payload none = payload
logged lib payload (some json) = lib.dump json

-- `__nt_log__`, with the binding `log`, if there is one.
unfoldable pub log_handler : {H : Type 0} → JsonLib → Option (Text → H → H) → Handler H
log_handler lib none payload h = (replied (lit "null"), h)
log_handler lib (some log) payload h =
    (replied (lit "null"), log (logged lib payload (lib.parse payload)) h)

-- `what` is the message of an exception of the JSON library.
abbrev pub reply_of : (what : Text) → Option Text → Reply
reply_of what none = failed what
reply_of what (some t) = replied t

unfoldable pub get_handler : JsonLib → (what : Text) → Handler Json
get_handler lib what payload variables =
    (reply_of what (env_get_handler lib variables payload), variables)

unfoldable pub set_handler : JsonLib → (what : Text) → Handler Json
set_handler lib what payload variables = (
  reply_of what (set_answer lib (env_set_handler lib variables payload)),
  after_set lib variables (env_set_handler lib variables payload),
)

abbrev pub ignore_log : Text → Json → Json
ignore_log message variables = variables

abbrev pub next_step : {S : Type 0} → Action S Outcome → Outcome × S → Outcome × S
next_step next (returned _, s) = next s
next_step next (threw what, s) = (threw what, s)

-- What follows a step that does not throw.
abbrev pub unless_threw : {S : Type 0} → Action S Outcome → Action S Outcome → Action S Outcome
unless_threw first next s = next_step next (first s)

abbrev inject_tests : {V M : Type 0} → Engine V M → Action (Sandbox M Json × Json) Outcome
inject_tests engine (sandbox, variables) =
    (returned [], (inject_variable engine (lit "__nt_tests") (lit "[]") sandbox, variables))

-- `nt_script` is what the evaluation of the installed script does.
unfoldable pub install_nt_api :
    {V M : Type 0}
    → JsonLib
    → (what : Text) → Engine V M
    → (nt_script : M → Run V M) → (now : ℕ) → Action (Sandbox M Json × Json) Outcome
install_nt_api lib what engine nt_script now = unless_threw (inject_tests engine) (
    unless_threw
      (register_function engine lib (lit "__nt_log__") (log_handler lib (some ignore_log)))
      (unless_threw (register_function engine lib (lit "__nt_env_get__") (get_handler lib what)) (
        unless_threw (register_function engine lib (lit "__nt_env_set__") (set_handler lib what))
          (execute_program engine now nt_script (lit "{}")))))

-- The handlers that it registers.
unfoldable pub nt_handlers : JsonLib → (what : Text) → Dict (Handler Json) → Dict (Handler Json)
nt_handlers lib what handlers = put (lit "__nt_env_set__") (set_handler lib what) (
    put (lit "__nt_env_get__") (get_handler lib what)
      (put (lit "__nt_log__") (log_handler lib (some ignore_log)) handlers))

-- `JSON.stringify` and `JSON.parse` of the engine; nothing where the latter throws.
pub record Js : Type 0 where
  pub stringify : Json → Text
  pub parse : Text → Option Json

abbrev pub key_payload : Text → Json
key_payload key = object (member (lit "key") (string key) end)

abbrev pub key_value_payload : Text → Json → Json
key_value_payload key v = object (member (lit "key") (string key) (member (lit "value") v end))

module _ (js : Js) where
  abbrev serialized : Option Json → Text
  serialized none = lit "null"
  serialized (some payload) = js.stringify payload

  abbrev pub parsed_or_raw : Text → Option Json → Json
  parsed_or_raw raw none = string raw
  parsed_or_raw raw (some json) = json

  -- Nothing for an error that is thrown into the script.
  abbrev pub script_value : Answer → Option Json
  script_value (answered raw) = some (parsed_or_raw raw (js.parse raw))
  script_value (internal_error _) = none
  script_value (reference_error _) = none

  -- A call of the wrapper of a native function; `undefined` has no value.
  unfoldable pub call_wrapper :
      {H : Type 0} → Dict (Handler H) → Text → Option Json → Action H (Option Json)
  call_wrapper handlers name payload h =
      let (answer, h') = invoke_native handlers (some name ∷ some (serialized payload) ∷ []) h in
      (script_value answer, h')

  -- `nt.console.log`, `nt.environment.get` and `nt.environment.set`
  unfoldable pub console_log : {H : Type 0} → Dict (Handler H) → Items → Action H (Option Json)
  console_log handlers parts = call_wrapper handlers (lit "__nt_log__") (some (array parts))

  unfoldable pub nt_environment_get :
      {H : Type 0} → Dict (Handler H) → Text → Action H (Option Json)
  nt_environment_get handlers key =
      call_wrapper handlers (lit "__nt_env_get__") (some (key_payload key))

  unfoldable pub nt_environment_set :
      {H : Type 0} → Dict (Handler H) → Text → Json → Action H (Option Json)
  nt_environment_set handlers key v =
      call_wrapper handlers (lit "__nt_env_set__") (some (key_value_payload key v))
