-- ===== src/Domain/Environment.antt =====
-- backend/domain/environment/environment.hpp.
pub mod Laws
use nexustal.Common.Options.{◌>>=◌}
use nexustal.Common.{
  Dict, ℕ, zero, suc, ◌+◌, ◌-◌, ◌*◌, ◌/◌, ◌%◌, ◌^◌, ◌≤◌, ◌<◌, String, ◌≡◌, refl, sym, ap, ◌∙◌,
  subst, ◌≢◌, ◌↔◌, ◌⊎◌, inl, inr, Bool, true, false, not, ◌&&◌, ◌||◌, Option, none, some, List, [],
  ◌∷◌, ◌++◌, append_assoc, append-nil, arith, ltb, leb, eqb, if◌then◌else◌, Bool-cases,
  Option-cases, is_some, Text, lit, ◌==◌, is_empty, eq_iff, eq_refl, ==-false, length,
  length-append, find_if, any, select, All, All-select, Dict, lookup, put, without, lookup-put,
  lookup-without,
}
use nexustal.Domain.Identity.{Uuid, Timestamp}
use nexustal.Domain.Json.{
  Json, null, boolean, number, string, array, object, Items, nil, cons, Members, JsonLib, object_of,
  push_back,
}

pub record Variable : Type 0 where
  pub key : Text
  pub value : Text
  pub secret : Bool
  pub description : Text

pub record Environment : Type 0 where
  pub id : Uuid
  pub project_id : Uuid
  pub created_by : Uuid
  pub name : Text
  pub variables : List Variable
  pub created_at : Timestamp
  pub updated_at : Timestamp

pub record GlobalVariables : Type 0 where
  pub project_id : Uuid
  pub variables : List Variable

-- The initializer list of `variableToJson`.
abbrev pub variable_members : Variable → Dict Json
variable_members variable =
    (lit "key", string variable.key)
    ∷ (lit "value", string variable.value)
    ∷ (lit "secret", boolean variable.secret)
    ∷ (lit "description", string variable.description)
    ∷ []

module _ (lib : JsonLib) where
  unfoldable pub variable_to_json : Variable → Json
  variable_to_json variable = object (object_of lib (variable_members variable))

  -- Nothing where one of the reads throws.
  unfoldable pub variable_from_json : Json → Option Variable
  variable_from_json json = do
    key ← lib.text_value json (lit "key") []
    value ← lib.text_value json (lit "value") []
    secret ← lib.bool_value json (lit "secret") false
    description ← lib.text_value json (lit "description") []
    some (record { key = key; value = value; secret = secret; description = description })

  -- The loop of `variablesToJson`, over the payload so far.
  unfoldable pub push_variables : Items → List Variable → Items
  unfolding variable_to_json push_back
  push_variables payload [] = payload
  push_variables payload (variable ∷ variables) =
      push_variables (push_back payload (variable_to_json variable)) variables

  unfoldable pub variables_to_json : List Variable → Json
  unfolding push_variables
  variables_to_json variables = array (push_variables nil variables)

  -- The loop of `variablesFromJson`, over the variables so far.
  unfoldable pub read_variables : List Variable → Items → Option (List Variable)
  unfolding variable_from_json
  read_variables variables nil = some variables
  read_variables variables (cons item items) = do
    variable ← variable_from_json item
    read_variables (variables ++ variable ∷ []) items

  unfoldable pub variables_from_json : Json → Option (List Variable)
  unfolding read_variables
  variables_from_json (array items) = read_variables [] items
  variables_from_json null = some []
  variables_from_json (boolean _) = some []
  variables_from_json (number _) = some []
  variables_from_json (string _) = some []
  variables_from_json (object _) = some []
