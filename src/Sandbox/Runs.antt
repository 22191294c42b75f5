-- ===== src/Sandbox/Runs.antt =====
-- RequestExecutor::runScript of backend/application/execution/request_executor.cpp on the sandbox,
-- and the sequence of calls that a run makes there.
use nexustal.Sandbox.Script.{Engine, Run}
use nexustal.Sandbox.{Sandbox, Outcome, returned, threw, is_available, execute}
use nexustal.Sandbox.Api.{install_nt_api}
use nexustal.Execution.Scripts.{script_result}
use nexustal.Domain.Json.{Json, JsonLib}
use nexustal.Common.{ℕ, Bool, true, false, Option, none, some, Text}

-- An exception leaves the function.
abbrev pub text_of_outcome : Outcome → Option Text
text_of_outcome (returned t) = some t
text_of_outcome (threw _) = none

module _ {V M : Type 0} (lib : JsonLib) (what : Text) (engine : Engine V M)
    (nt_script : M → Run V M) (started now : ℕ) where
  abbrev pub after_install :
      (script : Text) → (context : Json) → Outcome × (Sandbox M Json × Json) → Option Json × Json
  after_install script context (threw message, (sandbox, variables)) = (none, variables)
  after_install script context (returned _, s) =
      let (outcome, (sandbox, variables)) = execute engine now script (lib.dump context) s in
      (script_result lib (text_of_outcome outcome), variables)

  abbrev run_available :
      Bool → (script : Text) → (context : Json) → Sandbox M Json → Json → Option Json × Json
  run_available false script context sandbox variables = (none, variables)
  run_available true script context sandbox variables =
      after_install script context
        (install_nt_api lib what engine nt_script started (sandbox, variables))

  abbrev run_made :
      (script : Text) → (context : Json) → Option (Sandbox M Json) → Json → Option Json × Json
  run_made script context none variables = (none, variables)
  run_made script context (some sandbox) variables =
      run_available (is_available sandbox) script context sandbox variables

  -- `runScript`, on the factory, which may be missing, and what it gives.
  unfoldable pub run_script_in_sandbox :
      Option (Option (Sandbox M Json))
      → (script : Text) → (context variables : Json) → Option Json × Json
  run_script_in_sandbox none script context variables = (none, variables)
  run_script_in_sandbox (some made) script context variables =
      run_made script context made variables
