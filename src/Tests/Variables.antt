-- ===== src/Tests/Variables.antt =====
-- Variables through a JSON library of our own.
use nexustal.Domain.Environment.Laws.{variables_from_json-to_json}
use nexustal.Domain.Environment.{variables_to_json, variables_from_json, Variable}
use nexustal.Domain.Json.{
  cons, nil, Items, end, null, array, object, number, member, boolean, string, Members, Json,
  JsonLib, get,
}
use nexustal.Common.{
  ◌≡◌, refl, Bool, true, false, Option, none, some, List, [], ◌∷◌, arith, if◌then◌else◌, Text, lit,
  ◌==◌, eq_iff,
}

put : Text → Json → Members → Members
put k v end = member k v end
put k v (member j w m) = let rest = put k v m in if k == j then member k v m else member j w rest

get-put :
    (k j : Text) (v : Json) (m : Members) → get j (put k v m) ≡ (if k == j then some v else get j m)
unfolding put get
get-put k j v end = refl
get-put k j v (member i w m) = ground (arith, get-put k j v m, eq_iff k i, eq_iff i j, eq_iff k j)

text_from : Text → Option Json → Option Text
text_from d none = some d
text_from d (some (string t)) = some t
text_from d (some null) = none
text_from d (some (boolean _)) = none
text_from d (some (number _)) = none
text_from d (some (array _)) = none
text_from d (some (object _)) = none

bool_of : Bool → Option Json → Option Bool
bool_of d none = some d
bool_of d (some (boolean b)) = some b
bool_of d (some null) = none
bool_of d (some (string _)) = none
bool_of d (some (number _)) = none
bool_of d (some (array _)) = none
bool_of d (some (object _)) = none

members_of : Json → Option Members
members_of (object m) = some m
members_of null = none
members_of (boolean _) = none
members_of (number _) = none
members_of (string _) = none
members_of (array _) = none

json_of : Json → Option Json → Option Json
json_of d none = some d
json_of d (some v) = some v

assigned : Text → Json → Json → Option Json
assigned k v null = some (object (put k v end))
assigned k v (object m) = some (object (put k v m))
assigned k v (boolean _) = none
assigned k v (number _) = none
assigned k v (string _) = none
assigned k v (array _) = none

texts_in : Items → Option (List Text)
unfolding text_from
texts_in nil = some []
texts_in (cons v vs) = elim (text_from [] (some v)) [
  | none ↦ none
  | some t ↦ elim (texts_in vs) [ none ↦ none | some ts ↦ some (t ∷ ts) ]
]

items_of : List Text → Items
items_of [] = nil
items_of (t ∷ ts) = cons (string t) (items_of ts)

texts_in-items_of : (ts : List Text) → texts_in (items_of ts) ≡ some ts
unfolding texts_in items_of text_from
texts_in-items_of [] = refl
texts_in-items_of (t ∷ ts) = ground (arith, texts_in-items_of ts)

texts_from : Json → Option (List Text)
texts_from (array vs) = texts_in vs
texts_from (object _) = none
texts_from null = none
texts_from (boolean _) = none
texts_from (number _) = none
texts_from (string _) = none

pub library : JsonLib
unfolding assigned texts_from text_from bool_of json_of members_of
library = record {
  parse = λ text. none;
  dump = λ v. [];
  put = put;
  text_value = λ v k d. elim (members_of v) [ none ↦ none | some m ↦ text_from d (get k m) ];
  bool_value = λ v k d. elim (members_of v) [ none ↦ none | some m ↦ bool_of d (get k m) ];
  json_value = λ v k d. elim (members_of v) [ none ↦ none | some m ↦ json_of d (get k m) ];
  assign = assigned;
  text_of = λ v. text_from [] (some v);
  texts_of = texts_from;
  of_texts = λ ts. array (items_of ts);
  assign_object = λ k v m. refl;
  text_of_string = λ t. refl;
  texts_of-of_texts = texts_in-items_of;
  get-put = get-put;
  text_value_present = λ k d t m e. rw e refl;
  text_value_absent = λ k d m e. rw e refl;
  bool_value_present = λ k d b m e. rw e refl;
  json_value_present = λ k d v m e. rw e refl;
}

pub text_of-number : (n : Text) → library.text_of (number n) ≡ none
unfolding library text_from
text_of-number n = refl

pub of_texts-nil : library.of_texts [] ≡ array nil
unfolding library items_of
of_texts-nil = refl

abbrev variables : List Variable
variables =
    record { key = lit "host"; value = lit "localhost"; secret = false; description = [] }
    ∷ record { key = lit "token"; value = lit "abc"; secret = true; description = lit "of the API" }
    ∷ []

variables_from_json-to_json_example :
    variables_from_json library (variables_to_json library variables) ≡ some variables
variables_from_json-to_json_example = variables_from_json-to_json library variables
