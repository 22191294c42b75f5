-- ===== src/Domain/Environment/Laws.antt =====
-- Variables survive the way through JSON.
use nexustal.Common.{
  ◌≡◌, refl, ap, ◌∙◌, inl, inr, false, some, List, [], ◌∷◌, ◌++◌, append_assoc, append-nil, arith,
  Option-cases, lit, ◌==◌, lookup,
}
use nexustal.Domain.Json.{Items, nil, cons, JsonLib, get-object_of, push_back}
use nexustal.Domain.Environment.{
  variable_members, Variable, variable_to_json, variable_from_json, push_variables,
  variables_to_json, read_variables, variables_from_json,
}

module _ (lib : JsonLib) where
  pub variable_from_json-to_json :
      (v : Variable) → variable_from_json lib (variable_to_json lib v) ≡ some v
  unfolding variable_from_json variable_to_json lookup lit ◌==◌
  variable_from_json-to_json v =
      rw
        (
          lib.text_value_present (lit "key") [] v.key _ (get-object_of lib _ (variable_members v)),
          lib.text_value_present (lit "value") [] v.value _
              (get-object_of lib _ (variable_members v)),
          lib.bool_value_present (lit "secret") false v.secret _
              (get-object_of lib _ (variable_members v)),
          lib.text_value_present (lit "description") [] v.description _
              (get-object_of lib _ (variable_members v)),
        )
        refl

  read_variables-push_back :
      (acc found : List Variable) (payload : Items) (v : Variable)
      → read_variables lib acc payload ≡ some found
      → read_variables lib acc (push_back payload (variable_to_json lib v)) ≡ some (found ++ v ∷ [])
  unfolding read_variables push_back
  read_variables-push_back acc found nil v h = rw (variable_from_json-to_json v) (ground arith)
  read_variables-push_back acc found (cons item items) v h =
      elim (Option-cases (variable_from_json lib item)) [
        | inl e ↦ cc (rw (e, read_variables) at h)
        | inr (w, e) ↦
            rw (e, read_variables)
              (read_variables-push_back (acc ++ w ∷ []) found items v (rw (e, read_variables) at h))
      ]

  read_variables-push_variables :
      (read written : List Variable) (payload : Items)
      → read_variables lib [] payload ≡ some read
      → read_variables lib [] (push_variables lib payload written) ≡ some (read ++ written)
  unfolding push_variables
  read_variables-push_variables read [] payload h = rw append-nil h
  read_variables-push_variables read (v ∷ vs) payload h =
      read_variables-push_variables (read ++ v ∷ []) vs _
        (read_variables-push_back [] read payload v h)
      ∙ ap some (append_assoc read (v ∷ []) vs)

-- Printing any list of variables as JSON and reading it back gives the same variables, in order,
-- and reading throws nothing.
pub variables_from_json-to_json :
    (lib : JsonLib) (vs : List Variable)
    → variables_from_json lib (variables_to_json lib vs) ≡ some vs
unfolding variables_from_json variables_to_json
variables_from_json-to_json lib vs = read_variables-push_variables lib [] vs nil refl
