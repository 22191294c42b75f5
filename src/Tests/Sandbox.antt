-- ===== src/Tests/Sandbox.antt =====
-- A small engine: a value is the number of an array, and 0 is any other value.
use nexustal.Sandbox.Script.{
  Engine, Run, completed, raised, polls, prepare, set_injected, set_global_json_value,
  json_or_string,
}
use nexustal.Sandbox.{
  value, json_stringify, Sandbox, returned, interrupt_handler, execute, execute_program, play,
}
use nexustal.Sandbox.Laws.{execute-is_within, Obeys, poll_times}
use nexustal.Sandbox.Api.{Js, nt_handlers, nt_environment_get, nt_environment_set}
use nexustal.Sandbox.Api.Laws.{nt_environment_set-get}
use nexustal.Sandbox.Results.{Arrays, TestResult}
use nexustal.Sandbox.Assertions.{Values, json_path_lookup}
use nexustal.Sandbox.Assertions.Paths.{json_path_lookup-append}
use nexustal.Tests.Variables.{library}
use nexustal.Domain.Json.{Json, Members, JsonLib, object, member, end, string, number, get}
use mathlib.Core.Option
use nexustal.Common.{
  ◌⊎◌, ℕ, suc, ◌+◌, ◌-◌, ◌≡◌, refl, ap, ◌∙◌, inl, inr, Bool, true, false, not, Option, none, some,
  List, [], ◌∷◌, ◌++◌, arith, ltb, leb, eqb, if◌then◌else◌, Bool-cases, is_some, Text, lit, ◌==◌,
  is_empty, All, Dict, lookup, put, lookup-put,
}

record Memory : Type 0 where
  globals : Dict ℕ
  arrays : ℕ → Option (List TestResult)

abbrev or_zero : Option ℕ → ℕ
or_zero none = 0
or_zero (some v) = v

abbrev above : Dict ℕ → ℕ
above [] = 1
above ((_, v) ∷ rest) = suc (v + above rest)

abbrev global : Text → Memory → ℕ
global k m = or_zero (lookup k m.globals)

abbrev allocated : Memory → Memory
allocated m = record m { arrays = λ x. if eqb x (above m.globals) then some [] else m.arrays x }

abbrev parse_small : Text → Memory → Option ℕ × Memory
parse_small text m = if text == lit "[]" then (some (above m.globals), allocated m) else (none, m)

or_zero-if :
    (hit : Bool) (v : ℕ) (o : Option ℕ)
    → or_zero (if hit then some v else o) ≡ (if hit then v else or_zero o)
or_zero-if true v o = refl
or_zero-if false v o = refl

parse_small-global : (j t : Text) (m : Memory) → global j (parse_small t m).1 ≡ global j m
parse_small-global j t m = elim (Bool-cases (t == lit "[]")) [
  | inl hit ↦ rw hit refl
  | inr miss ↦ rw miss refl
]

-- A printed text is the number of its elements, or 9 for another value.
abbrev print_result : Option (List TestResult) → ℕ
print_result none = 9
print_result (some []) = 0
print_result (some (_ ∷ _)) = 1

abbrev print_of : ℕ → Memory → ℕ
print_of v m = print_result (m.arrays v)

abbrev text_of : ℕ → Option Text
text_of v = if eqb v 0 then some (lit "[]") else if eqb v 1 then some (lit "[{}]") else none

abbrev small : (Text → Memory → Run ℕ Memory) → Engine ℕ Memory
small run = record {
  new_context = some (record { globals = []; arrays = λ x. none });
  parse_json = parse_small;
  new_string = λ t m. (0, m);
  get_global = global;
  set_global = λ k v m. record m { globals = put k v m.globals };
  stringify = λ v m. completed (print_of v m) m;
  as_text = λ v m. text_of v;
  evaluate = run;
  get-set = λ k j v m. ap or_zero (lookup-put k j v m.globals) ∙ or_zero-if (k == j) v _;
  get-parse = parse_small-global;
  get-string = λ j t m. refl;
}

lookup-above : (k : Text) (d : Dict ℕ) → ltb (or_zero (lookup k d)) (above d) ≡ true
unfolding lookup
lookup-above k [] = refl
lookup-above k ((j, v) ∷ rest) = ground (arith, lookup-above k rest)

eqb_self : (n : ℕ) → eqb n n ≡ true
eqb_self n = ground arith

abbrev pushed : ℕ → TestResult → Memory → Memory
pushed b r m = record m {
  arrays = λ x. if eqb x b then Option.map (λ rs. rs ++ r ∷ []) (m.arrays x) else m.arrays x;
}

abbrev quiet : Text → Memory → Run ℕ Memory
quiet text m = completed 0 m

fresh_array :
    (m : Memory)
    → (if eqb (above m.globals) (above m.globals) then some [] else m.arrays (above m.globals))
      ≡ some []
fresh_array m = rw (eqb_self (above m.globals)) refl

above-not_zero : (d : Dict ℕ) → not (eqb (above d) 0) ≡ true
above-not_zero [] = refl
above-not_zero ((k, v) ∷ rest) = ground arith

parse_empty :
    (m : Memory)
    → (a : ℕ) × ((parse_small (lit "[]") m).0 ≡ some a)
      × ((parse_small (lit "[]") m).1.arrays a ≡ some [])
      × (not (eqb a 0) ≡ true)
      × ((b : ℕ) → ltb b (above m.globals) ≡ true → eqb a b ≡ false)
unfolding lit ◌==◌
parse_empty m =
    (above m.globals, refl, fresh_array m, above-not_zero m.globals, λ b h. ground (arith, h))

abbrev small_arrays : Arrays (small quiet)
small_arrays = record {
  undefined = 0;
  is_truthy = λ v. not (eqb v 0);
  new_array = λ m. (above m.globals, allocated m);
  elements = λ v m. m.arrays v;
  push = pushed;
  same = eqb;
  api = λ v. v;
  captured = λ v. v;
  in_use = λ v m. ltb v (above m.globals);
  captured-api = λ a. refl;
  in_use-captured = λ k m. lookup-above k m.globals;
  parse_empty = parse_empty;
  stringify_empty = λ a m h. (0, ap (λ o. completed (print_result o) m) h, refl);
  elements-set = λ a v k m. refl;
  elements-push = λ a b r m. refl;
  get-push = λ k b r m. refl;
}

abbrev new : Sandbox Memory Json
new = record {
  execution_timeout_ms = 50;
  handlers = [];
  injected_variables = [];
  context = some (record { globals = []; arrays = λ x. none });
  execution_started_at = 0;
}

abbrev two_tests : List (Text × Option Text)
two_tests = (lit "status is 200", none) ∷ (lit "has a body", some (lit "Expected")) ∷ []

abbrev polling : Text → Memory → Run ℕ Memory
polling text m = polls 30 (λ stop. if stop then raised 0 m else completed 0 m)

-- An engine that polls before it prints, too late.
abbrev slow : Engine ℕ Memory
slow = record (small polling) {
  stringify = λ v m. polls 70 (λ stop. if stop then raised 0 m else completed 0 m);
}

polling-Obeys : (text : Text) (m : Memory) → Obeys (polling text m)
unfolding Obeys
polling-Obeys text m = (refl, tt)

printing-Obeys : (v : ℕ) (m : Memory) → Obeys (slow.stringify v m)
unfolding Obeys
printing-Obeys v m = (refl, tt)

finishes : (execute slow 10 (lit "1") (lit "{}") (new, object end)).0 ≡ returned (lit "null")
unfolding execute execute_program play json_stringify interrupt_handler prepare set_injected
    set_global_json_value json_or_string put lookup lit ◌==◌
finishes = refl

execute-is_within_example :
    let started = record new { execution_started_at = 10 } in
    let run =
      polling
        (lit "1")
        (prepare slow [] (lit "{}") (record { globals = []; arrays = λ x. none })) in
    All (λ t. leb (t - 10) 50 ≡ true) (poll_times started run (object end))
    × (v : ℕ) × (n : Memory) × ((play started run (object end)).0 ≡ value v n)
    × ((lit "null" ≡ lit "null")
        ⊎ All
            (λ t. leb (t - 10) 50 ≡ true)
            (poll_times started (slow.stringify v n) (play started run (object end)).1))
execute-is_within_example =
    execute-is_within slow 10 (lit "1") (lit "{}") (lit "null") new _ (object end) refl
      (polling-Obeys (lit "1")) printing-Obeys finishes

abbrev set_payload : Members
set_payload = member (lit "key") (string (lit "n")) (member (lit "value") (number (lit "1")) end)

abbrev get_payload : Members
get_payload = member (lit "key") (string (lit "n")) end

read_payload : Text → Json
read_payload text =
    if text == lit "1"
    then number (lit "1")
    else if text == lit "set"
    then object set_payload
    else object get_payload

abbrev one_number : JsonLib
one_number = record library { parse = λ text. some (read_payload text); dump = λ v. lit "1" }

abbrev payload_text : Json → Text
payload_text (object (member _ _ (member _ _ _))) = lit "set"
payload_text _ = lit "get"

abbrev js : Js
js = record { stringify = payload_text; parse = λ text. some (read_payload text) }

set_read : one_number.parse (lit "set") ≡ some (object set_payload)
unfolding read_payload lit ◌==◌
set_read = refl

get_read : one_number.parse (lit "get") ≡ some (object get_payload)
unfolding read_payload lit ◌==◌
get_read = refl

one_read : one_number.parse (lit "1") ≡ some (number (lit "1"))
unfolding read_payload lit ◌==◌
one_read = refl

one_printed : is_empty (lit "1") ≡ false
unfolding lit
one_printed = refl

nt_environment_set-get_example :
    let installed = nt_handlers one_number (lit "error") [] in
    let after = (nt_environment_set js installed (lit "n") (number (lit "1")) (object end)).1 in
    (nt_environment_get js installed (lit "n") after).0 ≡ (
      if lit "n" == lit "n"
      then some (number (lit "1"))
      else (nt_environment_get js installed (lit "n") (object end)).0)
nt_environment_set-get_example =
    nt_environment_set-get one_number js (lit "error") [] end (lit "n") (lit "n") (number (lit "1"))
      set_read get_read one_read one_printed one_read

abbrev member_or_none : Option Json → Text → Option Json
member_or_none (some (object m)) key = get key m
member_or_none _ key = none

abbrev values : Values (Option Json)
values = record {
  undefined = none;
  empty_object = some (object end);
  max_safe_integer = some (number (lit "9007199254740991"));
  is_nullish = λ v. not (is_some v);
  is_truthy = is_some;
  property = member_or_none;
  strict_equal = λ v w. false;
  at_least = λ v w. false;
  stringify = λ v. none;
  display = λ v. [];
  lower_case = λ t. t;
}

json_path_lookup-append_example :
    json_path_lookup values (some (object set_payload)) (lit "value" ++ lit "." ++ lit "ok")
    ≡ json_path_lookup values
        (json_path_lookup values (some (object set_payload)) (lit "value"))
        (lit "ok")
json_path_lookup-append_example =
    json_path_lookup-append values (some (object set_payload)) (lit "value") (lit "ok")
