-- ===== src/Sandbox/Results.antt =====
-- The results of `nt.test`: the array of the installed script of
-- backend/infrastructure/sandbox/nt_api_bindings.cpp, and the test script that
-- backend/application/execution/request_executor.cpp wraps. Arrays of the engine are a parameter.
pub mod Lost
use nexustal.Sandbox.Script.{
  Engine, Run, completed, set_global_json_value, json_or_string, prepare, set_injected,
}
use nexustal.Sandbox.{Sandbox, Outcome, returned, execute_program, play}
use nexustal.Sandbox.Laws.{execute_program-run}
use nexustal.Sandbox.Api.{install_nt_api}
use nexustal.Sandbox.Api.Laws.{install_nt_api-installed}
use nexustal.Domain.Json.{Json, JsonLib}
use mathlib.Core.Option
use nexustal.Common.{
  ℕ, zero, suc, ◌+◌, ◌-◌, ◌*◌, ◌/◌, ◌%◌, ◌^◌, ◌≤◌, ◌<◌, String, ◌≡◌, refl, sym, ap, ◌∙◌, subst, ◌≢◌,
  ◌↔◌, ◌⊎◌, inl, inr, Bool, true, false, not, ◌&&◌, ◌||◌, Option, none, some, List, [], ◌∷◌, ◌++◌,
  append_assoc, append-nil, arith, ltb, leb, eqb, if◌then◌else◌, Bool-cases, Option-cases, is_some,
  Text, lit, ◌==◌, is_empty, eq_iff, eq_refl, ==-false, length, length-append, find_if, get_elem?,
  modify, take-length, drop-length, take, drop, drop-zero, take-append, drop-append, update_where,
  count_if, count_if-pos, find_if-any, find_if-holds, insert_desc, order_desc, any-insert_desc,
  any-order_desc, All-insert_desc, All-order_desc, find_if-All, any-select, any-false, any_mono,
  any-append, All-append, All-select_self, find_if_unique, any, select, All, All-select, Dict,
  lookup, put, without, lookup-put, lookup-without, Action, ◌>>=◌, ◌>>◌, pure,
}

pub data TestResult : Type 0 where
  passed_test : Text → TestResult
  failed_test : Text → (message : Text) → TestResult

pub record Arrays {V M : Type 0} (engine : Engine V M) : Type 0 where
  pub undefined : V
  pub is_truthy : V → Bool
  -- `[]`, and the elements of an array, nothing for another value
  pub new_array : M → V × M
  pub elements : V → M → Option (List TestResult)
  pub push : V → TestResult → M → M
  -- `===` of two objects
  pub same : V → V → Bool
  -- the object `nt` whose functions have captured an array, and that array
  pub api : V → V
  pub captured : V → V
  -- whether a value is reachable
  pub in_use : V → M → Bool
  pub captured-api : (a : V) → captured (api a) ≡ a
  pub in_use-captured : (k : Text) (m : M) → in_use (captured (engine.get_global k m)) m ≡ true
  pub parse_empty :
      (m : M)
      → (a : V) × ((engine.parse_json (lit "[]") m).0 ≡ some a)
        × (elements a (engine.parse_json (lit "[]") m).1 ≡ some [])
        × (is_truthy a ≡ true)
        × ((b : V) → in_use b m ≡ true → same a b ≡ false)
  pub stringify_empty :
      (a : V) (m : M)
      → elements a m ≡ some []
      → (s : V) × (engine.stringify a m ≡ completed s m) × (engine.as_text s m ≡ some (lit "[]"))
  pub elements-set :
      (a v : V) (k : Text) (m : M) → elements a (engine.set_global k v m) ≡ elements a m
  pub elements-push :
      (a b : V) (r : TestResult) (m : M)
      → elements a (push b r m)
        ≡ (if same a b then Option.map (λ rs. rs ++ r ∷ []) (elements a m) else elements a m)
  pub get-push :
      (k : Text) (b : V) (r : TestResult) (m : M)
      → engine.get_global k (push b r m) ≡ engine.get_global k m

module _ {V M : Type 0} {engine : Engine V M} (arrays : Arrays engine) where
  -- `globalThis.__nt_tests || []`
  unfoldable pub tests_or_new : M → V × M
  tests_or_new m =
      let tests = engine.get_global (lit "__nt_tests") m in
      if arrays.is_truthy tests then (tests, m) else arrays.new_array m

  -- The installed script, as far as the results are concerned.
  unfoldable pub nt_script : M → Run V M
  unfolding tests_or_new
  nt_script m =
      let (tests, m') = tests_or_new m in
      completed arrays.undefined (
        engine.set_global (lit "nt") (arrays.api tests)
          (engine.set_global (lit "__nt_tests") tests m'))

  abbrev pub test_result_of : Text × Option Text → TestResult
  test_result_of (name, none) = passed_test name
  test_result_of (name, some message) = failed_test name message

  -- `nt.test` on a function that ends, or throws with a message.
  unfoldable pub nt_test : Text × Option Text → M → M
  nt_test test m =
      arrays.push (arrays.captured (engine.get_global (lit "nt") m)) (test_result_of test) m

  unfoldable pub nt_tests : List (Text × Option Text) → M → M
  unfolding nt_test
  nt_tests [] m = m
  nt_tests (test ∷ tests) m = nt_tests tests (nt_test test m)

  -- A test script that calls `nt.test`, as the executor wraps it.
  unfoldable pub tests_program : List (Text × Option Text) → M → Run V M
  unfolding nt_tests tests_or_new
  tests_program tests m =
      let (results, m') = tests_or_new (nt_tests tests m) in completed results m'
