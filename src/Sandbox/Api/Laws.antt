-- ===== src/Sandbox/Api/Laws.antt =====
-- What is installed, and scripts that read what they have written.
use nexustal.Sandbox.Script.{Engine, Run}
use nexustal.Sandbox.{
  Sandbox, Handler, Outcome, returned, threw, invoke_native, call_handler, answer_of,
  register_function, inject_variable, execute_program, execute_in,
}
use nexustal.Sandbox.Api.{
  Js, install_nt_api, nt_handlers, get_handler, set_handler, log_handler, nt_environment_get,
  nt_environment_set, unless_threw, next_step, call_wrapper, parsed_or_raw, script_value, reply_of,
  key_payload, key_value_payload, ignore_log,
}
use nexustal.Execution.Scripts.{env_get_handler, env_set_handler, after_set}
use nexustal.Execution.Scripts.Laws.{env_set_handler-get}
use nexustal.Domain.Json.{Json, JsonLib, object, member, end, string, get, Members}
use nexustal.Common.{
  ℕ, ◌≡◌, refl, sym, ap, ◌∙◌, inl, inr, Bool, true, false, Option, none, some, [], arith,
  if◌then◌else◌, Option-cases, Text, lit, ◌==◌, is_empty, eq_refl, Dict, lookup, put, lookup-put,
  Action,
}

lookup-put_same : {V : Type 0} (k : Text) (v : V) (m : Dict V) → lookup k (put k v m) ≡ some v
lookup-put_same k v m = rw (lookup-put k k v m, eq_refl k) refl

lookup-put_other :
    {V : Type 0} (k j : Text) (v : V) (m : Dict V)
    → (k == j) ≡ false
    → lookup j (put k v m) ≡ lookup j m
lookup-put_other k j v m h = rw (lookup-put k j v m, h) refl

set_ne_get : (lit "__nt_env_set__" == lit "__nt_env_get__") ≡ false
unfolding lit ◌==◌
set_ne_get = refl

lookup_get :
    (lib : JsonLib) (what : Text) (handlers : Dict (Handler Json))
    → lookup (lit "__nt_env_get__") (nt_handlers lib what handlers) ≡ some (get_handler lib what)
unfolding nt_handlers
lookup_get lib what handlers =
    lookup-put_other (lit "__nt_env_set__") (lit "__nt_env_get__") _ _ set_ne_get
    ∙ lookup-put_same (lit "__nt_env_get__") _ _

lookup_set :
    (lib : JsonLib) (what : Text) (handlers : Dict (Handler Json))
    → lookup (lit "__nt_env_set__") (nt_handlers lib what handlers) ≡ some (set_handler lib what)
unfolding nt_handlers
lookup_set lib what handlers = lookup-put_same (lit "__nt_env_set__") _ _

call_wrapper-handler :
    {H : Type 0} (js : Js) (handlers : Dict (Handler H)) (name : Text) (payload : Json) (h : H)
    (handler : Handler H)
    → lookup name handlers ≡ some handler
    → call_wrapper js handlers name (some payload) h ≡ (
      script_value js (answer_of (handler (js.stringify payload) h).0),
      (handler (js.stringify payload) h).1,
    )
unfolding call_wrapper invoke_native
call_wrapper-handler js handlers name payload h handler found =
    ap
      (λ o.
        let (answer, h') = call_handler name (js.stringify payload) o h in
        (script_value js answer, h'))
      found

abbrev script_read : Js → (what : Text) → Option Text → Option Json
script_read js what o = script_value js (answer_of (reply_of what o))

script_read-if :
    (lib : JsonLib) (js : Js) (what : Text) (v : Json) (hit : Bool) (o : Option Text)
    → js.parse (lib.dump v) ≡ some v
    → script_read js what (if hit then some (lib.dump v) else o)
      ≡ (if hit then some v else script_read js what o)
script_read-if lib js what v true o h = ap (λ p. some (parsed_or_raw js (lib.dump v) p)) h
script_read-if lib js what v false o h = refl

module _ (lib : JsonLib) (js : Js) (what : Text) (handlers : Dict (Handler Json)) where
  nt_environment_get-read :
      (j : Text) (variables : Json)
      → (nt_environment_get js (nt_handlers lib what handlers) j variables).0
        ≡ script_read js what (env_get_handler lib variables (js.stringify (key_payload j)))
  unfolding nt_environment_get get_handler
  nt_environment_get-read j variables =
      ap (λ r. r.0)
        (call_wrapper-handler js (nt_handlers lib what handlers) (lit "__nt_env_get__")
          (key_payload j) variables (get_handler lib what) (lookup_get lib what handlers))

  nt_environment_set-after :
      (k : Text) (v variables : Json)
      → (nt_environment_set js (nt_handlers lib what handlers) k v variables).1
        ≡ after_set lib variables
            (env_set_handler lib variables (js.stringify (key_value_payload k v)))
  unfolding nt_environment_set set_handler
  nt_environment_set-after k v variables =
      ap (λ r. r.1)
        (call_wrapper-handler js (nt_handlers lib what handlers) (lit "__nt_env_set__")
          (key_value_payload k v) variables (set_handler lib what) (lookup_set lib what handlers))

key_of_key : (j : Text) → get (lit "key") (member (lit "key") (string j) end) ≡ some (string j)
unfolding get lit ◌==◌
key_of_key j = refl

key_of_pair :
    (k : Text) (v : Json)
    → get (lit "key") (member (lit "key") (string k) (member (lit "value") v end)) ≡ some (string k)
unfolding get lit ◌==◌
key_of_pair k v = refl

value_of_pair :
    (k : Text) (v : Json)
    → get (lit "value") (member (lit "key") (string k) (member (lit "value") v end)) ≡ some v
unfolding get lit ◌==◌
value_of_pair k v = refl

-- `nt.environment.set` and then `nt.environment.get`, through the wrappers, the registered
-- handlers and the variables of the request: the script reads the value that it has set, and every
-- other variable as before. The printed payloads and the printed value are parsed as what was
-- printed, on both sides of the engine.
pub nt_environment_set-get :
    (lib : JsonLib) (js : Js) (what : Text) (handlers : Dict (Handler Json)) (variables : Members)
    (k j : Text) (v : Json)
    → lib.parse (js.stringify (key_value_payload k v)) ≡ some (key_value_payload k v)
    → lib.parse (js.stringify (key_payload j)) ≡ some (key_payload j)
    → lib.parse (lib.dump v) ≡ some v
    → is_empty (lib.dump v) ≡ false
    → js.parse (lib.dump v) ≡ some v
    → let installed = nt_handlers lib what handlers in
      let after = (nt_environment_set js installed k v (object variables)).1 in
      (nt_environment_get js installed j after).0
      ≡ (if k == j then some v else (nt_environment_get js installed j (object variables)).0)
nt_environment_set-get lib js what handlers variables k j v w r d e p =
    let written = js.stringify (key_value_payload k v) in
    let asked = js.stringify (key_payload j) in
    let installed = nt_handlers lib what handlers in
    let (changed, done, read) =
      env_set_handler-get lib variables _ _ k j v written asked w (key_of_pair k v)
        (value_of_pair k v) d e r (key_of_key j) in
    ap (λ s. (nt_environment_get js installed j s).0)
      (nt_environment_set-after lib js what handlers k v (object variables)
        ∙ ap (after_set lib (object variables)) done)
    ∙ nt_environment_get-read lib js what handlers j changed
    ∙ ap (script_read js what) read
    ∙ script_read-if lib js what v (k == j) _ p
    ∙ ap (λ o. if k == j then some v else o)
        (sym (nt_environment_get-read lib js what handlers j (object variables)))

next_step-returned :
    {S : Type 0} (next : Action S Outcome) (r : Outcome × S) (text : Text)
    → (next_step next r).0 ≡ returned text
    → next_step next r ≡ next r.1
next_step-returned next (returned t, s) text h = refl
next_step-returned next (threw what, s) text h = ground arith

unless_threw-returned :
    {S : Type 0} (first next : Action S Outcome) (s : S) (text : Text)
    → (unless_threw first next s).0 ≡ returned text
    → unless_threw first next s ≡ next (first s).1
unless_threw-returned first next s text h = next_step-returned next (first s) text h

-- The parts of a sandbox that its scripts do not touch.
abbrev Parts : Type 0
Parts = Dict (Handler Json) × Dict Text

abbrev parts_of : {M : Type 0} → Outcome × (Sandbox M Json × Json) → Parts
parts_of (_, (sandbox, _)) = (sandbox.handlers, sandbox.injected_variables)

abbrev with_handler : Text → Handler Json → Parts → Parts
with_handler name handler (handlers, injected) = (put name handler handlers, injected)

module _ {V M : Type 0} (engine : Engine V M) where
  register_function-parts :
      (lib : JsonLib) (name : Text) (handler : Handler Json) (sandbox : Sandbox M Json) (v : Json)
      → parts_of (register_function engine lib name handler (sandbox, v))
        ≡ (put name handler sandbox.handlers, sandbox.injected_variables)
  unfolding register_function
  register_function-parts lib name handler sandbox v = elim (Option-cases sandbox.context) [
    | inl missing ↦ rw missing refl
    | inr (m, present) ↦ rw present refl
  ]

  execute_program-parts :
      (now : ℕ) (program : M → Run V M) (context_json : Text) (sandbox : Sandbox M Json) (v : Json)
      → parts_of (execute_program engine now program context_json (sandbox, v))
        ≡ (sandbox.handlers, sandbox.injected_variables)
  unfolding execute_program
  execute_program-parts now program context_json sandbox v = elim (Option-cases sandbox.context) [
    | inl missing ↦ rw missing refl
    | inr (m, present) ↦ rw present refl
  ]

-- The state in which the script is run, where nothing before it throws.
install_nt_api-run :
    {V M : Type 0} (lib : JsonLib) (what : Text) (engine : Engine V M) (nt_script : M → Run V M)
    (now : ℕ) (sandbox : Sandbox M Json) (variables : Json) (text : Text)
    → (install_nt_api lib what engine nt_script now (sandbox, variables)).0 ≡ returned text
    → (last : Sandbox M Json) × (v : Json) × (install_nt_api lib what engine nt_script now
          (sandbox, variables)
        ≡ execute_program engine now nt_script (lit "{}") (last, v))
      × (parts_of (returned [], (last, v)) ≡ (
        nt_handlers lib what sandbox.handlers,
        put (lit "__nt_tests") (lit "[]") sandbox.injected_variables,
      ))
unfolding install_nt_api nt_handlers inject_variable
install_nt_api-run {M = M} lib what engine nt_script now sandbox variables text h =
    let log = register_function engine lib (lit "__nt_log__") (log_handler lib (some ignore_log)) in
    let reads = register_function engine lib (lit "__nt_env_get__") (get_handler lib what) in
    let writes = register_function engine lib (lit "__nt_env_set__") (set_handler lib what) in
    let run = execute_program engine now nt_script (lit "{}") in
    let s0 : Sandbox M Json × Json =
      (inject_variable engine (lit "__nt_tests") (lit "[]") sandbox, variables) in
    let (s1, v1) = (log s0).1 in
    let (s2, v2) = (reads (s1, v1)).1 in
    let (s3, v3) = (writes (s2, v2)).1 in
    let e1 = unless_threw-returned log (unless_threw reads (unless_threw writes run)) s0 text h in
    let e2 =
      unless_threw-returned reads (unless_threw writes run) (s1, v1) text
        (sym (ap (λ r. r.0) e1) ∙ h) in
    let e3 = unless_threw-returned writes run (s2, v2) text (sym (ap (λ r. r.0) (e1 ∙ e2)) ∙ h) in
    let last : parts_of (returned [], (s3, v3))
        ≡ (nt_handlers lib what sandbox.handlers, s0.0.injected_variables) =
      register_function-parts engine lib (lit "__nt_env_set__") (set_handler lib what) s2 v2
      ∙ ap (with_handler (lit "__nt_env_set__") (set_handler lib what))
          (register_function-parts engine lib (lit "__nt_env_get__") (get_handler lib what) s1 v1)
      ∙ ap
          (λ p.
            with_handler (lit "__nt_env_set__") (set_handler lib what)
              (with_handler (lit "__nt_env_get__") (get_handler lib what) p))
          (register_function-parts engine lib (lit "__nt_log__") (log_handler lib (some ignore_log))
            s0.0 variables) in
    (s3, v3, e1 ∙ e2 ∙ e3, last)

execute_in-returned :
    {V M : Type 0} (engine : Engine V M) (now : ℕ) (program : M → Run V M) (context_json : Text)
    (o : Option M) (sandbox : Sandbox M Json) (v : Json) (text : Text)
    → (execute_in engine now program context_json o (sandbox, v)).0 ≡ returned text
    → (m : M) × ((execute_in engine now program context_json o (sandbox, v)).1.0.context ≡ some m)
execute_in-returned engine now program context_json none sandbox v text h =
    absurd (ground (arith, h))
execute_in-returned engine now program context_json (some m) sandbox v text h = (_, refl)

execute_program-returned :
    {V M : Type 0} (engine : Engine V M) (now : ℕ) (program : M → Run V M) (context_json : Text)
    (sandbox : Sandbox M Json) (v : Json) (text : Text)
    → (execute_program engine now program context_json (sandbox, v)).0 ≡ returned text
    → (m : M) × ((execute_program engine now program context_json (sandbox, v)).1.0.context
        ≡ some m)
unfolding execute_program
execute_program-returned engine now program context_json sandbox v text =
    execute_in-returned engine now program context_json sandbox.context sandbox v text

-- Where the installation does not throw, the sandbox has the three handlers and an engine, and the
-- variable of the test results is among those that every later script starts with.
pub install_nt_api-installed :
    {V M : Type 0} (lib : JsonLib) (what : Text) (engine : Engine V M) (nt_script : M → Run V M)
    (now : ℕ) (sandbox : Sandbox M Json) (variables : Json) (text : Text)
    → (install_nt_api lib what engine nt_script now (sandbox, variables)).0 ≡ returned text
    → let installed = (install_nt_api lib what engine nt_script now (sandbox, variables)).1.0 in
      ((m : M) × (installed.context ≡ some m))
      × (installed.handlers ≡ nt_handlers lib what sandbox.handlers)
      × (installed.injected_variables
          ≡ put (lit "__nt_tests") (lit "[]") sandbox.injected_variables)
install_nt_api-installed lib what engine nt_script now sandbox variables text h =
    let (last, v, run, parts) =
      install_nt_api-run lib what engine nt_script now sandbox variables text h in
    let (m, there) =
      execute_program-returned engine now nt_script (lit "{}") last v text
        (sym (ap (λ r. r.0) run) ∙ h) in
    let all =
      ap parts_of run ∙ execute_program-parts engine now nt_script (lit "{}") last v ∙ parts in
    ((m, ap (λ r. r.1.0.context) run ∙ there), ap (λ p. p.0) all, ap (λ p. p.1) all)
