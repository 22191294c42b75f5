-- ===== src/Storage/Environments.antt =====
-- backend/infrastructure/adapters/postgres_environment_repository.cpp and its tables, of
-- backend/migrations/003_execution_and_collab.sql and 005_environment_globals.sql.
pub mod Laws
use nexustal.Storage.Members.{returned, affected}
use nexustal.Storage.Users.{or_fresh}
use nexustal.Storage.Columns.{varchar}
use nexustal.Domain.Environment.{
  variables_to_json, variables_from_json, GlobalVariables, Variable, Environment,
}
use nexustal.Domain.Json.{JsonLib, Json}
use nexustal.Domain.Identity.{Timestamp, Uuid}
use nexustal.Storage.{
  has_user, exec, has_project, Tables, Database, Statement, EnvironmentRow, GlobalsRow,
}
use nexustal.Common.{
  ℕ, zero, suc, ◌+◌, ◌-◌, ◌*◌, ◌/◌, ◌%◌, ◌^◌, ◌≤◌, ◌<◌, String, ◌≡◌, refl, sym, ap, ◌∙◌, subst, ◌≢◌,
  ◌↔◌, ◌⊎◌, inl, inr, Bool, true, false, not, ◌&&◌, ◌||◌, Option, none, some, List, [], ◌∷◌, ◌++◌,
  append_assoc, append-nil, arith, ltb, leb, eqb, if◌then◌else◌, Bool-cases, Option-cases, is_some,
  Text, lit, ◌==◌, is_empty, eq_iff, eq_refl, ==-false, length, length-append, find_if, get_elem?,
  modify, take-length, drop-length, take, drop, drop-zero, take-append, drop-append, update_where,
  count_if, count_if-pos, find_if-any, find_if-holds, insert_desc, order_desc, any-insert_desc,
  any-order_desc, All-insert_desc, All-order_desc, find_if-All, any-select, any-false, any_mono,
  any-append, All-append, All-select_self, find_if_unique, any, select, All, All-select, Dict,
  lookup, put, without, lookup-put, lookup-without, Action, ◌>>=◌, ◌>>◌, pure,
}

-- `parseVariables` of a column that is not NULL; nothing where a read of a member throws.
abbrev pub parse_variables : JsonLib → Json → Option (List Variable)
parse_variables lib variables = variables_from_json lib variables

abbrev mapped : EnvironmentRow → Option (List Variable) → Option Environment
mapped row none = none
mapped row (some variables) = some (record {
  id = row.id;
  project_id = row.project_id;
  created_by = row.created_by;
  name = row.name;
  variables = variables;
  created_at = row.created_at;
  updated_at = row.updated_at;
})

unfoldable pub map_environment : JsonLib → EnvironmentRow → Option Environment
map_environment lib row = mapped row (parse_variables lib row.variables)

-- Rows ordered by a rising key, ties in the order of the table.
abbrev insert_asc : EnvironmentRow → List EnvironmentRow → List EnvironmentRow
insert_asc x [] = x ∷ []
insert_asc x (y ∷ ys) =
    let rest = insert_asc x ys in if leb x.created_at y.created_at then x ∷ y ∷ ys else y ∷ rest

abbrev order_by_created_at : List EnvironmentRow → List EnvironmentRow
order_by_created_at [] = []
order_by_created_at (x ∷ xs) = insert_asc x (order_by_created_at xs)

abbrev joined_to : Option Environment → Option (List Environment) → Option (List Environment)
joined_to none later = none
joined_to (some e) none = none
joined_to (some e) (some es) = some (e ∷ es)

unfoldable pub map_environments : JsonLib → List EnvironmentRow → Option (List Environment)
map_environments lib [] = some []
map_environments lib (row ∷ rows) = joined_to (map_environment lib row) (map_environments lib rows)

-- An exception of a conversion goes out: the result is then nothing.
abbrev all_environments : JsonLib → Option (List EnvironmentRow) → Option (List Environment)
all_environments lib none = some []
all_environments lib (some rows) = map_environments lib rows

unfoldable pub find_environments_by_project :
    JsonLib → Uuid → Action Database (Option (List Environment))
find_environments_by_project lib project_id = do
  result ←
      exec (λ t.
        some (order_by_created_at (select (λ r. r.project_id == project_id) t.environments), t))
  pure (all_environments lib result)

abbrev found_environment : Option Environment → Option (Option Environment)
found_environment none = none
found_environment (some e) = some (some e)

abbrev pub first_environment :
    JsonLib → Option (Option EnvironmentRow) → Option (Option Environment)
first_environment lib none = some none
first_environment lib (some none) = some none
first_environment lib (some (some row)) = found_environment (map_environment lib row)

unfoldable pub find_environment_by_id :
    JsonLib → Uuid → Action Database (Option (Option Environment))
find_environment_by_id lib id = do
  result ← exec (λ t. some (find_if (λ r. r.id == id) t.environments, t))
  pure (first_environment lib result)

-- The key and the references.
abbrev pub environment_allowed : Environment → Tables → Bool
environment_allowed env t =
    not (any (λ r. r.id == env.id) t.environments)
    && (has_project t env.project_id && has_user t env.created_by)

abbrev pub environment_row : Text → Json → Environment → Timestamp → EnvironmentRow
environment_row name variables env now = record {
  id = env.id;
  project_id = env.project_id;
  name = name;
  variables = variables;
  created_by = env.created_by;
  created_at = now;
  updated_at = now;
}

abbrev pub with_environment : EnvironmentRow → Tables → Tables
with_environment row t = record t { environments = t.environments ++ row ∷ [] }

unfoldable pub insert_environment : JsonLib → Environment → Statement Uuid
insert_environment lib env t = elim (varchar 120 env.name) [
  | none ↦ none
  | some name ↦
      if environment_allowed env t
      then some (
        env.id,
        with_environment (environment_row name (variables_to_json lib env.variables) env t.now) t,
      )
      else none
]

unfoldable pub create_environment : JsonLib → (fresh : Uuid) → Environment → Action Database Uuid
create_environment lib fresh env = do
  result ← exec (insert_environment lib (record env { id = or_fresh fresh env.id }))
  pure (returned result)

abbrev overwrite_environment : Text → Json → Timestamp → EnvironmentRow → EnvironmentRow
overwrite_environment name variables now r = record r {
  name = name;
  variables = variables;
  updated_at = now;
}

unfoldable pub set_environment : JsonLib → Environment → Statement ℕ
set_environment lib env t = elim (varchar 120 env.name) [
  | none ↦ none
  | some name ↦ some (
    count_if (λ r. r.id == env.id) t.environments,
    record t {
      environments =
          update_where (λ r. r.id == env.id)
            (overwrite_environment name (variables_to_json lib env.variables) t.now) t.environments;
    },
  )
]

unfoldable pub update_environment : JsonLib → Environment → Action Database Bool
update_environment lib env = do result ← exec (set_environment lib env); pure (affected result)

unfoldable pub remove_environment : Uuid → Action Database Bool
remove_environment id = do
  result ← exec (λ t. some (
    count_if (λ r. r.id == id) t.environments,
    record t { environments = select (λ r. not (r.id == id)) t.environments },
  ))
  pure (affected result)

abbrev globals_of : Uuid → Option (List Variable) → Option GlobalVariables
globals_of project_id none = none
globals_of project_id (some variables) =
    some (record { project_id = project_id; variables = variables })

abbrev first_globals : JsonLib → Uuid → Option (Option GlobalsRow) → Option GlobalVariables
first_globals lib project_id none = some (record { project_id = project_id; variables = [] })
first_globals lib project_id (some none) = some (record { project_id = project_id; variables = [] })
first_globals lib project_id (some (some row)) =
    globals_of row.project_id (parse_variables lib row.variables)

unfoldable pub get_global_variables : JsonLib → Uuid → Action Database (Option GlobalVariables)
get_global_variables lib project_id = do
  result ← exec (λ t. some (find_if (λ r. r.project_id == project_id) t.globals, t))
  pure (first_globals lib project_id result)

-- `INSERT … ON CONFLICT (project_id) DO UPDATE SET variables`
unfoldable pub upsert_globals : GlobalsRow → List GlobalsRow → List GlobalsRow
upsert_globals row [] = row ∷ []
upsert_globals row (g ∷ gs) =
    if g.project_id == row.project_id
    then record g { variables = row.variables } ∷ gs
    else g ∷ upsert_globals row gs

abbrev pub globals_row : JsonLib → GlobalVariables → GlobalsRow
globals_row lib globals = record {
  project_id = globals.project_id;
  variables = variables_to_json lib globals.variables;
}

unfoldable pub insert_globals : GlobalsRow → Statement ℕ
insert_globals row t =
    if has_project t row.project_id
    then some (1, record t { globals = upsert_globals row t.globals })
    else none

unfoldable pub set_global_variables : JsonLib → GlobalVariables → Action Database Bool
set_global_variables lib globals = do
  result ← exec (insert_globals (globals_row lib globals))
  pure (affected result)
