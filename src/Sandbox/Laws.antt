-- ===== src/Sandbox/Laws.antt =====
-- The time limit, registration, and the installed functions of the environment.
use nexustal.Sandbox.Script.{Engine, Run, completed, raised, calls, polls, prepare, Answer}
use nexustal.Sandbox.{
  Sandbox, Handler, returned, threw, Ended, value, exception, play, invoke_native,
  interrupt_handler, execute_program, execute_in, outcome_of, is_available, register_function,
  inject_variable, set_execution_timeout, execute, printed, json_stringify,
}
use nexustal.Domain.Json.{JsonLib}
use nexustal.Common.{
  ◌⊎◌, ℕ, ◌-◌, ◌≡◌, refl, sym, ap, ◌∙◌, subst, ◌≢◌, inl, inr, Bool, true, false, some, List, [],
  ◌∷◌, arith, leb, Bool-cases, Option-cases, Text, lit, All,
}

abbrev pub is_raised : {V M : Type 0} → Run V M → Bool
is_raised (completed _ _) = false
is_raised (raised _ _) = true
is_raised (calls _ _) = false
is_raised (polls _ _) = false

-- A run that ends with an exception as soon as a poll tells it to stop.
unfoldable pub Obeys : {V M : Type 0} → Run V M → Type 0
Obeys (completed _ _) = Unit {0}
Obeys (raised _ _) = Unit {0}
Obeys (calls arguments k) = (answer : Answer) → Obeys (k answer)
Obeys (polls now k) = (is_raised (k true) ≡ true) × Obeys (k false)

-- The times of the polls of a run in a sandbox.
unfoldable pub poll_times : {V M H : Type 0} → Sandbox M H → Run V M → H → List ℕ
poll_times sandbox (completed _ _) h = []
poll_times sandbox (raised _ _) h = []
poll_times sandbox (calls arguments k) h =
    let (answer, h') = invoke_native sandbox.handlers arguments h in
    poll_times sandbox (k answer) h'
poll_times sandbox (polls now k) h = now ∷ poll_times sandbox (k (interrupt_handler sandbox now)) h

abbrev is_value : {V M : Type 0} → Ended V M → Bool
is_value (value _ _) = true
is_value (exception _ _) = false

raised-is_value :
    {V M H : Type 0} (sandbox : Sandbox M H) (run : Run V M) (h : H)
    → is_raised run ≡ true
    → is_value (play sandbox run h).0 ≡ false
unfolding play
raised-is_value sandbox (raised v m) h r = refl
raised-is_value sandbox (completed v m) h r = ground arith
raised-is_value sandbox (calls arguments k) h r = ground arith
raised-is_value sandbox (polls now k) h r = ground arith

abbrev pub is_within : {M H : Type 0} → Sandbox M H → ℕ → Bool
is_within sandbox now = leb (now - sandbox.execution_started_at) sandbox.execution_timeout_ms

interrupt_handler-is_within :
    {M H : Type 0} (sandbox : Sandbox M H) (now : ℕ)
    → interrupt_handler sandbox now ≡ false
    → is_within sandbox now ≡ true
unfolding interrupt_handler
interrupt_handler-is_within sandbox now h = ground arith

true-ne-false : true ≢ false
true-ne-false h = ground arith

play-is_within :
    {V M H : Type 0} (sandbox : Sandbox M H) (run : Run V M) (h : H)
    → Obeys run
    → is_value (play sandbox run h).0 ≡ true
    → All (λ now. is_within sandbox now ≡ true) (poll_times sandbox run h)
unfolding play Obeys poll_times
play-is_within sandbox (completed v m) h o e = tt
play-is_within sandbox (raised v m) h o e = tt
play-is_within sandbox (calls arguments k) h o e =
    let (answer, h') = invoke_native sandbox.handlers arguments h in
    play-is_within sandbox (k answer) h' (o answer) e
play-is_within sandbox (polls now k) h (stops, goes) e =
    elim (Bool-cases (interrupt_handler sandbox now)) [
      | inl late ↦ absurd (
          true-ne-false (
            sym e
            ∙ (ap (λ b. is_value (play sandbox (k b) h).0) late
                ∙ raised-is_value sandbox (k true) h stops)))
      | inr early ↦ (
        interrupt_handler-is_within sandbox now early,
        subst
            (λ b.
              is_value (play sandbox (k b) h).0 ≡ true
              → All (λ now. is_within sandbox now ≡ true) (poll_times sandbox (k b) h))
            (sym early) (play-is_within sandbox (k false) h goes) e,
      )
    ]

-- The polls of a run are within the limit.
abbrev pub Within : {V M H : Type 0} → Sandbox M H → Run V M → H → Type 0
Within sandbox run h = All (λ now. is_within sandbox now ≡ true) (poll_times sandbox run h)

printed-is_value :
    {V M : Type 0} (engine : Engine V M) (ended : Ended V M)
    → ((printed engine ended).0 ≡ lit "null") ⊎ (is_value ended ≡ true)
printed-is_value engine (value v m) = inr refl
printed-is_value engine (exception v m) = inl refl

-- A text that is returned is that of a value; its printing was within the limit, or it is "null".
outcome_of-Within :
    {V M H : Type 0} (engine : Engine V M) (sandbox : Sandbox M H) (on_exception : Text)
    (ended : Ended V M) (h : H) (text : Text)
    → ((v : V) (n : M) → Obeys (engine.stringify v n))
    → (outcome_of engine sandbox on_exception ended h).0.0 ≡ returned text
    → (v : V) × (n : M) × (ended ≡ value v n)
      × ((text ≡ lit "null") ⊎ Within sandbox (engine.stringify v n) h)
unfolding json_stringify
outcome_of-Within engine sandbox on_exception (exception v m) h text o e = ground arith
outcome_of-Within engine sandbox on_exception (value v m) h text o e = (
  v,
  m,
  refl,
  elim (printed-is_value engine (play sandbox (engine.stringify v m) h).0) [
    | inl null ↦ inl (ground (arith, e, null))
    | inr whole ↦ inr (play-is_within sandbox (engine.stringify v m) h (o v m) whole)
  ],
)

-- What `execute` does where there is an engine.
pub execute_program-run :
    {V M H : Type 0} (engine : Engine V M) (now : ℕ) (program : M → Run V M) (context_json : Text)
    (sandbox : Sandbox M H) (m : M) (h : H)
    → sandbox.context ≡ some m
    → let started = record sandbox { execution_started_at = now } in
      let (ended, h') =
        play started (program (prepare engine sandbox.injected_variables context_json m)) h in
      let ((outcome, n), h'') =
        outcome_of engine started (lit "QuickJS execution failed: ") ended h' in
      execute_program engine now program context_json (sandbox, h)
      ≡ (outcome, (record started { context = some n }, h''))
unfolding execute_program
execute_program-run engine now program context_json sandbox m h c =
    ap (λ o. execute_in engine now program context_json o (sandbox, h)) c

-- A script that returns has been within the time limit at each of its polls: one that is polled
-- later than the limit allows, counted from the call, ends in the runtime error. The printing of
-- its value, which may run code of the script again, is under the same limit, but does not end in
-- an error: the text is then "null". The engine ends a run that is told to stop, whatever it finds
-- in its memory.
pub execute-is_within :
    {V M H : Type 0} (engine : Engine V M) (now : ℕ) (script context_json text : Text)
    (sandbox : Sandbox M H) (m : M) (h : H)
    → sandbox.context ≡ some m
    → ((n : M) → Obeys (engine.evaluate script n))
    → ((v : V) (n : M) → Obeys (engine.stringify v n))
    → (execute engine now script context_json (sandbox, h)).0 ≡ returned text
    → let started = record sandbox { execution_started_at = now } in
      let run = engine.evaluate script (prepare engine sandbox.injected_variables context_json m) in
      All (λ t. leb (t - now) sandbox.execution_timeout_ms ≡ true) (poll_times started run h)
      × (v : V) × (n : M) × ((play started run h).0 ≡ value v n)
      × ((text ≡ lit "null")
          ⊎ All
              (λ t. leb (t - now) sandbox.execution_timeout_ms ≡ true)
              (poll_times started (engine.stringify v n) (play started run h).1))
unfolding execute execute_program
execute-is_within engine now script context_json text sandbox m h c o p e =
    let started = record sandbox { execution_started_at = now } in
    let run = engine.evaluate script (prepare engine sandbox.injected_variables context_json m) in
    let (v, n, whole, printing) =
      outcome_of-Within engine started _ (play started run h).0 (play started run h).1 text p (
        sym (
          ap (λ r. r.0)
            (execute_program-run engine now (engine.evaluate script) context_json sandbox m h c))
        ∙ e) in
    (
      play-is_within started run h (o (prepare engine sandbox.injected_variables context_json m))
          (ap is_value whole),
      v,
      n,
      whole,
      printing,
    )

-- A sandbox stays available, or unavailable, whatever is done with it; where it is unavailable,
-- a script is refused and nothing changes.
pub is_available-kept :
    {V M H : Type 0} (engine : Engine V M) (lib : JsonLib) (now limit : ℕ) (text name other : Text)
    (handler : Handler H) (sandbox : Sandbox M H) (h : H)
    → (is_available (execute engine now text other (sandbox, h)).1.0 ≡ is_available sandbox)
      × (is_available (register_function engine lib name handler (sandbox, h)).1.0
          ≡ is_available sandbox)
      × (is_available (inject_variable engine name other sandbox) ≡ is_available sandbox)
      × (is_available (set_execution_timeout limit sandbox) ≡ is_available sandbox)
      × (is_available sandbox ≡ false
          → execute engine now text other (sandbox, h)
            ≡ (threw (lit "QuickJS support is not enabled in this build"), (sandbox, h)))
unfolding execute execute_program register_function inject_variable set_execution_timeout
    is_available
is_available-kept engine lib now limit text name other handler sandbox h =
    elim (Option-cases sandbox.context) [
      | inl missing ↦ rw missing (refl, refl, refl, refl, λ e. refl)
      | inr (m, present) ↦ rw present (refl, refl, refl, refl, λ e. ground arith)
    ]
