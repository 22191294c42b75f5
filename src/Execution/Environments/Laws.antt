-- ===== src/Execution/Environments/Laws.antt =====
-- Which value a variable gets, and what the cache keeps of an environment.
use nexustal.Domain.Environment.Laws.{variables_from_json-to_json}
use nexustal.Domain.Identity.{Uuid}
use nexustal.Domain.Ports.{EnvironmentRepository, Cache}
use nexustal.Domain.Environment.{variables_to_json, Environment, Variable}
use nexustal.Execution.Environments.{
  environment_members, EnvironmentCache, cache_key_for, parse_value, environment_to_json,
  resolve_variables, fill, get_environment, environment_from_json,
}
use nexustal.Domain.Json.{end, object, empty_array, get-object_of, Json, get, Members, JsonLib}
use nexustal.Execution.Variables.Laws.{first_of}
use nexustal.Common.{
  ◌≡◌, refl, false, Option, none, some, List, [], ◌∷◌, arith, if◌then◌else◌, Text, lit, ◌==◌,
  is_empty, lookup,
}

-- The value of the last variable of a key.
unfoldable pub last_value : JsonLib → Text → List Variable → Option Json
last_value lib k [] = none
last_value lib k (v ∷ vs) =
    first_of (last_value lib k vs) (if v.key == k then some (parse_value lib v.value) else none)

fill-get :
    (lib : JsonLib) (k : Text) (resolved : Members) (vs : List Variable)
    → get k (fill lib resolved vs) ≡ first_of (last_value lib k vs) (get k resolved)
unfolding fill last_value
fill-get lib k resolved [] = refl
fill-get lib k resolved (v ∷ vs) = ground (
  arith,
  fill-get lib k (lib.put v.key (parse_value lib v.value) resolved) vs,
  lib.get-put v.key k (parse_value lib v.value) resolved,
)

-- Resolving the variables of a project for an environment that is found gives each key the value of
-- the last variable of that key in the environment, or else the last among the global variables,
-- and no other keys.
pub resolve_variables-last_value :
    {S : Type 0} (lib : JsonLib) (redis : Option (Cache S)) (rows : EnvironmentRepository S)
    (project_id env_id : Uuid) (environment : Environment) (w : S)
    → let service : EnvironmentCache S = record { redis = redis; repository = some rows } in
      let (globals, reading) = rows.get_global_variables project_id w in
      (get_environment lib service env_id reading).0 ≡ some environment
      → (resolved : Members) × ((resolve_variables lib service project_id (some env_id) w).0
          ≡ object resolved)
        × ((k : Text)
            → get k resolved
              ≡ first_of
                  (last_value lib k environment.variables)
                  (last_value lib k globals.variables))
unfolding resolve_variables get
resolve_variables-last_value lib redis rows project_id env_id environment w found =
    let globals = (rows.get_global_variables project_id w).0 in
    (
      fill lib (fill lib end globals.variables) environment.variables,
      ground (arith, found),
      λ k. ground (
        arith,
        fill-get lib k (fill lib end globals.variables) environment.variables,
        fill-get lib k end globals.variables,
      ),
    )

-- Writing an environment as JSON and reading it back gives it without its times.
environment_from_json-to_json :
    (lib : JsonLib) (e : Environment)
    → environment_from_json lib (environment_to_json lib e)
      ≡ some (record e { created_at = 0; updated_at = 0 })
unfolding environment_from_json environment_to_json lookup lit ◌==◌
environment_from_json-to_json lib e =
    rw
      (
        lib.text_value_present (lit "id") [] e.id _
            (get-object_of lib _ (environment_members lib e)),
        lib.text_value_present (lit "project_id") [] e.project_id _
            (get-object_of lib _ (environment_members lib e)),
        lib.text_value_present (lit "created_by") [] e.created_by _
            (get-object_of lib _ (environment_members lib e)),
        lib.text_value_present (lit "name") [] e.name _
            (get-object_of lib _ (environment_members lib e)),
        lib.json_value_present (lit "variables") empty_array (variables_to_json lib e.variables) _
            (get-object_of lib _ (environment_members lib e)),
        variables_from_json-to_json lib e.variables,
      )
      refl

-- Where the cache answers with the entry that was written for an environment, and the library
-- parses what it prints, getting the environment gives it as it was written, without its times,
-- and without asking the repository.
pub get_environment-cached :
    {S : Type 0} (lib : JsonLib) (cache : Cache S) (repository : Option (EnvironmentRepository S))
    (e : Environment) (w : S)
    → let entry = lib.dump (environment_to_json lib e) in
      lib.parse entry ≡ some (environment_to_json lib e)
      → is_empty entry ≡ false
      → (cache.read (cache_key_for e.id) w).0 ≡ some entry
      → get_environment lib (record { redis = some cache; repository = repository }) e.id w ≡ (
        some (record e { created_at = 0; updated_at = 0 }),
        (cache.read (cache_key_for e.id) w).1,
      )
unfolding get_environment
get_environment-cached lib cache repository e w parsed printed hit =
    ground (arith, hit, printed, parsed, environment_from_json-to_json lib e)
