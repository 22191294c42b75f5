-- ===== src/Sandbox.antt =====
-- backend/infrastructure/sandbox/quickjs_sandbox.cpp. A native handler takes a payload and acts on
-- the state `H` of its owner. Times and limits are in milliseconds; a limit is not negative.
pub mod Script
pub mod Laws
pub mod Api
pub mod Results
pub mod Assertions
pub mod Runs
use mathlib.Core.Option
use nexustal.Domain.Json.{string, JsonLib}
use nexustal.Sandbox.Script.{
  Engine, Run, completed, raised, calls, polls, Answer, answered, internal_error, reference_error,
  text_or, prepare, set_global_json_value,
}
use nexustal.Common.{
  ℕ, zero, suc, ◌+◌, ◌-◌, ◌*◌, ◌/◌, ◌%◌, ◌^◌, ◌≤◌, ◌<◌, String, ◌≡◌, refl, sym, ap, ◌∙◌, subst, ◌≢◌,
  ◌↔◌, ◌⊎◌, inl, inr, Bool, true, false, not, ◌&&◌, ◌||◌, Option, none, some, List, [], ◌∷◌, ◌++◌,
  append_assoc, append-nil, arith, ltb, leb, eqb, if◌then◌else◌, Bool-cases, Option-cases, is_some,
  Text, lit, ◌==◌, is_empty, eq_iff, eq_refl, ==-false, length, length-append, find_if, get_elem?,
  modify, take-length, drop-length, take, drop, drop-zero, take-append, drop-append, update_where,
  count_if, count_if-pos, find_if-any, find_if-holds, insert_desc, order_desc, any-insert_desc,
  any-order_desc, All-insert_desc, All-order_desc, find_if-All, any-select, any-false, any_mono,
  any-append, All-append, All-select_self, find_if_unique, any, select, All, All-select, Dict,
  lookup, put, without, lookup-put, lookup-without, Action, ◌>>=◌, ◌>>◌, pure,
}

-- A handler's result, or the message of the exception that it throws.
pub data Reply : Type 0 where
  replied : Text → Reply
  failed : Text → Reply

abbrev pub Handler : Type 0 → Type 0
Handler H = Text → Action H Reply

-- `State`. The engine's memory is there in a build with QuickJS only.
pub record Sandbox (M H : Type 0) : Type 0 where
  pub execution_timeout_ms : ℕ
  pub handlers : Dict (Handler H)
  pub injected_variables : Dict Text
  pub context : Option M
  pub execution_started_at : ℕ

-- What a function returns, or the message of the runtime error that it throws.
pub data Outcome : Type 0 where
  returned : Text → Outcome
  threw : Text → Outcome

-- A run that is over.
pub data Ended (V M : Type 0) : Type 0 where
  value : V → M → Ended V M
  exception : V → M → Ended V M

abbrev pub answer_of : Reply → Answer
answer_of (replied t) = answered t
answer_of (failed what) = internal_error what

abbrev pub payload_of : List (Option Text) → Text
payload_of [] = lit "null"
payload_of (none ∷ _) = lit "null"
payload_of (some t ∷ _) = t

abbrev pub name_of : Option Text → Text
name_of none = []
name_of (some t) = t

unfoldable pub wrapper_script : JsonLib → Text → Text
wrapper_script lib name =
    lit "globalThis["
    ++ (lib.dump (string name)
        ++ (lit
              "] = function(payload) { const serialized = payload === undefined ? 'null' : JSON.stringify(payload); const raw = __nexustal_call("
            ++ (lib.dump (string name)
                ++ lit
                    ", serialized); try { return JSON.parse(raw); } catch (error) { return raw; } };")))

module _ {H : Type 0} where
  -- `isAvailable`
  unfoldable pub is_available : {M : Type 0} → Sandbox M H → Bool
  is_available sandbox = is_some sandbox.context

  unfoldable pub set_execution_timeout : {M : Type 0} → ℕ → Sandbox M H → Sandbox M H
  set_execution_timeout limit sandbox = record sandbox { execution_timeout_ms = limit }

  -- Whether a run is to stop.
  unfoldable pub interrupt_handler : {M : Type 0} → Sandbox M H → (now : ℕ) → Bool
  interrupt_handler sandbox now =
      ltb sandbox.execution_timeout_ms (now - sandbox.execution_started_at)

  abbrev pub call_handler : Text → Text → Option (Handler H) → Action H Answer
  call_handler name payload none h =
      (reference_error (lit "native handler is not registered: " ++ name), h)
  call_handler name payload (some handler) h =
      let (reply, h') = handler payload h in (answer_of reply, h')

  -- `invokeNative`
  unfoldable pub invoke_native : Dict (Handler H) → List (Option Text) → Action H Answer
  invoke_native handlers [] h = (internal_error (lit "sandbox state is not initialized"), h)
  invoke_native handlers (first ∷ rest) h =
      call_handler (name_of first) (payload_of rest) (lookup (name_of first) handlers) h

  -- A run in a sandbox, whose handlers answer the calls.
  unfoldable pub play : {V M : Type 0} → Sandbox M H → Run V M → Action H (Ended V M)
  unfolding invoke_native interrupt_handler
  play sandbox (completed v m) h = (value v m, h)
  play sandbox (raised v m) h = (exception v m, h)
  play sandbox (calls arguments k) h =
      let (answer, h') = invoke_native sandbox.handlers arguments h in play sandbox (k answer) h'
  play sandbox (polls now k) h = play sandbox (k (interrupt_handler sandbox now)) h

-- The text of a value, "null" where the printing throws or is interrupted.
abbrev pub printed : {V M : Type 0} → Engine V M → Ended V M → Text × M
printed engine (value v m) = (text_or (lit "null") (engine.as_text v m), m)
printed engine (exception v m) = (lit "null", m)

module _ {V M H : Type 0} (engine : Engine V M) (sandbox : Sandbox M H) where
  -- `jsonStringify`, which may call native functions and be told to stop, as the script may.
  unfoldable pub json_stringify : V → M → Action H (Text × M)
  unfolding play
  json_stringify v m h =
      let (ended, h') = play sandbox (engine.stringify v m) h in (printed engine ended, h')

  -- `exceptionMessage` behind a text.
  abbrev pub thrown_as : (on_exception : Text) → V → M → Action H (Outcome × M)
  thrown_as on_exception v m h =
      let ((text, m'), h') = json_stringify v m h in ((threw (on_exception ++ text), m'), h')

  abbrev pub outcome_of : (on_exception : Text) → Ended V M → Action H (Outcome × M)
  outcome_of on_exception (value v m) h =
      let ((text, m'), h') = json_stringify v m h in ((returned text, m'), h')
  outcome_of on_exception (exception v m) h = thrown_as on_exception v m h

  -- The value of a wrapper is not read.
  abbrev pub wrapper_outcome : (on_exception : Text) → Ended V M → Action H (Outcome × M)
  wrapper_outcome on_exception (value v m) h = ((returned [], m), h)
  wrapper_outcome on_exception (exception v m) h = thrown_as on_exception v m h

module _ {V M H : Type 0} (engine : Engine V M) where
  abbrev with_context : ℕ → Option M → Sandbox M H
  with_context limit context = record {
    execution_timeout_ms = limit;
    handlers = [];
    injected_variables = [];
    context = context;
    execution_started_at = 0;
  }

  -- The constructor, in a build with QuickJS or without; nothing where it throws.
  unfoldable pub new_sandbox : (built_with_quickjs : Bool) → ℕ → Option (Sandbox M H)
  new_sandbox false limit = some (with_context limit none)
  new_sandbox true limit = elim engine.new_context [
    | none ↦ none
    | some m ↦ some (with_context limit (some m))
  ]

  abbrev run_in :
      (finish : Sandbox M H → Ended V M → Action H (Outcome × M))
      → Run V M
      → Action (Sandbox M H × H) Outcome
  run_in finish run (sandbox, h) =
      let (ended, h') = play sandbox run h in
      let ((outcome, m), h'') = finish sandbox ended h' in
      (outcome, (record sandbox { context = some m }, h''))

  abbrev pub execute_in :
      (now : ℕ)
      → (M → Run V M)
      → (context_json : Text) → Option M
      → Action (Sandbox M H × H) Outcome
  execute_in now program context_json none s =
      (threw (lit "QuickJS support is not enabled in this build"), s)
  execute_in now program context_json (some m) (sandbox, h) =
      run_in (λ s. outcome_of engine s (lit "QuickJS execution failed: "))
        (program (prepare engine sandbox.injected_variables context_json m))
        (record sandbox { execution_started_at = now }, h)

  -- `execute`, on what the evaluation of the script does.
  unfoldable pub execute_program :
      (now : ℕ) → (M → Run V M) → (context_json : Text) → Action (Sandbox M H × H) Outcome
  execute_program now program context_json (sandbox, h) =
      execute_in now program context_json sandbox.context (sandbox, h)

  unfoldable pub execute :
      (now : ℕ) → (script context_json : Text) → Action (Sandbox M H × H) Outcome
  unfolding execute_program
  execute now script context_json = execute_program now (engine.evaluate script) context_json

  abbrev pub wrap_in : JsonLib → Text → Option M → Action (Sandbox M H × H) Outcome
  wrap_in lib name none s = (returned [], s)
  wrap_in lib name (some m) s =
      run_in (λ s. wrapper_outcome engine s (lit "failed to register native wrapper: "))
        (engine.evaluate (wrapper_script lib name) m) s

  -- The handler stays registered where the wrapper cannot be installed.
  unfoldable pub register_function : JsonLib → Text → Handler H → Action (Sandbox M H × H) Outcome
  register_function lib name handler (sandbox, h) =
      wrap_in lib name sandbox.context
        (record sandbox { handlers = put name handler sandbox.handlers }, h)

  unfoldable pub inject_variable : Text → Text → Sandbox M H → Sandbox M H
  unfolding set_global_json_value
  inject_variable name text sandbox = record sandbox {
    injected_variables = put name text sandbox.injected_variables;
    context = Option.map (set_global_json_value engine name text) sandbox.context;
  }
