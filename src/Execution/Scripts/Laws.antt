-- ===== src/Execution/Scripts/Laws.antt =====
-- Scripts read what they have written.
use nexustal.Domain.Json.{string, get, object, Members, Json, JsonLib}
use nexustal.Execution.Environments.{parse_value}
use nexustal.Execution.Scripts.{
  dumped, payload_value, payload_key, environment_set, environment_get, env_get_handler,
  env_set_handler,
}
use nexustal.Common.{
  ◌≡◌, refl, ap, ◌∙◌, inl, inr, false, some, [], if◌then◌else◌, Bool-cases, Text, lit, ◌==◌,
  is_empty,
}

parse_value-dump :
    (lib : JsonLib) (v : Json) → lib.parse (lib.dump v) ≡ some v → parse_value lib (lib.dump v) ≡ v
unfolding parse_value
parse_value-dump lib v h = rw (h, parse_value) refl

-- A script that sets a variable to a value reads the value back, as the JSON text that it is
-- printed as, and every other variable as before. The payloads are objects that name the
-- variables, and the printed value is not empty and is parsed as the value.
pub env_set_handler-get :
    (lib : JsonLib) (variables m n : Members) (k j : Text) (v : Json) (written asked : Text)
    → lib.parse written ≡ some (object m)
    → get (lit "key") m ≡ some (string k)
    → get (lit "value") m ≡ some v
    → lib.parse (lib.dump v) ≡ some v
    → is_empty (lib.dump v) ≡ false
    → lib.parse asked ≡ some (object n)
    → get (lit "key") n ≡ some (string j)
    → (changed : Json) × (env_set_handler lib (object variables) written ≡ some changed)
      × (env_get_handler lib changed asked
          ≡ (if k == j then some (lib.dump v) else env_get_handler lib (object variables) asked))
unfolding env_set_handler env_get_handler environment_get environment_set
env_set_handler-get lib variables m n k j v written asked w wk wv carried printed a ak =
    let set_key = lib.text_value_present (lit "key") [] k m wk in
    let get_key = lib.text_value_present (lit "key") [] j n ak in
    let key_read : payload_key lib (lib.parse written) ≡ some k =
      ap (payload_key lib) w ∙ set_key in
    let value_read : parse_value lib (payload_value lib (lib.parse written)) ≡ v =
      ap (λ o. parse_value lib (payload_value lib o)) w
      ∙ (ap (λ o. parse_value lib (dumped lib o)) wv ∙ parse_value-dump lib v carried) in
    (
      object (lib.put k v variables),
      rw key_read (
          ap (λ x. lib.assign k x (object variables)) value_read ∙ lib.assign_object k v variables),
      elim (Bool-cases (k == j)) [
        | inl hit ↦ rw (a, get_key, lib.get-put k j v variables, hit, printed) refl
        | inr miss ↦ rw (a, get_key, lib.get-put k j v variables, miss) refl
      ],
    )
