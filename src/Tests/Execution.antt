-- ===== src/Tests/Execution.antt =====
-- Variables, overrides and environments at concrete inputs.
use nexustal.Execution.Environments.Laws.{
  resolve_variables-last_value, last_value, get_environment-cached,
}
use nexustal.Tests.Data.{alice, shop}
use nexustal.Tests.Variables.{library}
use nexustal.Execution.Environments.{
  set, fetch, cache_key_for, resolve_variables, get_environment, environment_to_json,
}
use nexustal.Domain.Ports.{EnvironmentRepository, Cache}
use nexustal.Domain.Json.{
  push_back, end, number, string, object, get, member, object_of, Members, JsonLib,
}
use nexustal.Domain.Environment.{
  variable_to_json, push_variables, variables_to_json, Environment, GlobalVariables,
}
use nexustal.Execution.Variables.{Draws}
use nexustal.Execution.Variables.Laws.{first_of}
use nexustal.Common.{ℕ, ◌+◌, ◌≡◌, refl, true, false, none, some, [], ◌∷◌, Text, lit, is_empty}

abbrev draws : Draws
draws = record {
  random_int = λ call. lit "1234";
  guid = λ call. (b'a' + call) ∷ [];
  timestamp = λ call. lit "99";
  iso_timestamp = λ call. lit "2024-01-01T00:00:00Z";
  email_number = λ call. lit "77";
}

abbrev base : Members
base = member (lit "host") (string (lit "localhost")) end

abbrev overrides : Members
overrides = member (lit "host") (string (lit "db")) (member (lit "port") (number (lit "80")) end)

abbrev staging : Environment
staging = record {
  id = b's' ∷ [];
  project_id = shop;
  created_by = alice;
  name = lit "staging";
  variables = record { key = lit "host"; value = lit "db"; secret = false; description = [] } ∷ [];
  created_at = 3;
  updated_at = 4;
}

abbrev globals : GlobalVariables
globals = record {
  project_id = shop;
  variables = record { key = lit "host"; value = lit "any"; secret = false; description = [] } ∷ [];
}

abbrev rows : EnvironmentRepository ℕ
rows = record {
  find_by_project = λ project_id s. (staging ∷ [], s);
  find_by_id = λ id s. (some staging, s);
  create = λ e s. (e.id, s);
  update = λ e s. (true, s);
  remove = λ id s. (true, s);
  get_global_variables = λ project_id s. (globals, s);
  set_global_variables = λ g s. (true, s);
}

staging_found :
    (get_environment library (record { redis = none; repository = some rows }) staging.id 0).0
    ≡ some staging
unfolding get_environment fetch set
staging_found = refl

resolve_variables-last_value_example :
    (resolved : Members) × ((resolve_variables library
        (record { redis = none; repository = some rows })
        shop
        (some staging.id)
        0).0
      ≡ object resolved)
    × ((k : Text)
        → get k resolved
          ≡ first_of
              (last_value library k staging.variables)
              (last_value library k globals.variables))
resolve_variables-last_value_example =
    resolve_variables-last_value library none rows shop staging.id staging 0 staging_found

abbrev one_entry : JsonLib
one_entry = record library {
  parse = λ text. some (environment_to_json library staging);
  dump = λ v. lit "{}";
}

abbrev one_reply : Cache ℕ
one_reply = record {
  read = λ key s. (some (lit "{}"), s);
  setex = λ key seconds value s. (tt, s);
  delete = λ key s. (tt, s);
}

parsed :
    one_entry.parse (one_entry.dump (environment_to_json one_entry staging))
    ≡ some (environment_to_json one_entry staging)
unfolding environment_to_json object_of variables_to_json push_variables variable_to_json push_back
parsed = refl

printed : is_empty (one_entry.dump (environment_to_json one_entry staging)) ≡ false
unfolding lit
printed = refl

get_environment-cached_example :
    get_environment one_entry (record { redis = some one_reply; repository = none }) staging.id 0
    ≡ (
      some (record staging { created_at = 0; updated_at = 0 }),
      (one_reply.read (cache_key_for staging.id) 0).1,
    )
get_environment-cached_example =
    get_environment-cached one_entry one_reply none staging 0 parsed printed refl
