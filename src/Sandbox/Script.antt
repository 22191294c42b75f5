-- ===== src/Sandbox/Script.antt =====
-- The script engine of backend/infrastructure/sandbox/quickjs_sandbox.cpp, a parameter: its values
-- `V`, its memory `M` with the global object, and what the sandbox asks of it. A run of a script
-- gives a value or an exception; before that it calls native functions and polls whether to stop.
use nexustal.Common.{
  ℕ, ◌≡◌, Bool, Option, none, some, List, [], ◌∷◌, if◌then◌else◌, Text, lit, ◌==◌, Dict,
}

-- What a native function answers: a text, or an error with its message.
pub data Answer : Type 0 where
  answered : Text → Answer
  internal_error : Text → Answer
  reference_error : Text → Answer

-- A call names its arguments as C strings, nothing where an argument has none; a poll is told the
-- time, in milliseconds.
pub data Run (V M : Type 0) : Type 0 where
  completed : V → M → Run V M
  raised : V → M → Run V M
  calls : List (Option Text) → (Answer → Run V M) → Run V M
  polls : ℕ → (Bool → Run V M) → Run V M

pub record Engine (V M : Type 0) : Type 0 where
  -- `JS_NewRuntime`, `JS_NewContext` and the global `__nexustal_call`; nothing where they fail
  pub new_context : Option M
  -- `JS_ParseJSON`, with nothing for an exception, and `JS_NewStringLen`
  pub parse_json : Text → M → Option V × M
  pub new_string : Text → M → V × M
  pub get_global : Text → M → V
  pub set_global : Text → V → M → M
  -- `JS_JSONStringify`, which runs the getters and the `toJSON` that the script has defined, and
  -- the C string of a value, with nothing where it has none
  pub stringify : V → M → Run V M
  pub as_text : V → M → Option Text
  -- `JS_Eval` in the global scope
  pub evaluate : Text → M → Run V M
  pub get-set :
      (k j : Text) (v : V) (m : M)
      → get_global j (set_global k v m) ≡ (if k == j then v else get_global j m)
  pub get-parse : (j t : Text) (m : M) → get_global j (parse_json t m).1 ≡ get_global j m
  pub get-string : (j t : Text) (m : M) → get_global j (new_string t m).1 ≡ get_global j m

abbrev pub text_or : Text → Option Text → Text
text_or fallback none = fallback
text_or fallback (some t) = t

module _ {V M : Type 0} (engine : Engine V M) where
  abbrev pub parsed_or_string : Text → Option V × M → V × M
  parsed_or_string text (none, m) = engine.new_string text m
  parsed_or_string text (some v, m) = (v, m)

  -- A text that is no JSON becomes a string.
  unfoldable pub json_or_string : Text → M → V × M
  json_or_string text m = parsed_or_string text (engine.parse_json text m)

  unfoldable pub set_global_json_value : Text → Text → M → M
  unfolding json_or_string
  set_global_json_value name text m =
      let (v, m') = json_or_string text m in engine.set_global name v m'

  -- The injected variables are set after one another; their names differ, so the order in which
  -- the map gives them makes no difference.
  unfoldable pub set_injected : Dict Text → M → M
  unfolding set_global_json_value
  set_injected [] m = m
  set_injected ((name, text) ∷ rest) m = set_injected rest (set_global_json_value name text m)

  -- What a script finds: the context under two names, and then the injected variables.
  unfoldable pub prepare : Dict Text → Text → M → M
  unfolding set_injected
  prepare injected context_json m = set_injected injected (
      set_global_json_value (lit "__nt_context") context_json
        (set_global_json_value (lit "context") context_json m))
