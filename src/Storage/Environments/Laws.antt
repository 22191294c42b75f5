-- ===== src/Storage/Environments/Laws.antt =====
-- What is stored of environments and global variables is read back.
use nexustal.Storage.Members.{returned}
use nexustal.Domain.Environment.Laws.{variables_from_json-to_json}
use nexustal.Storage.Users.{or_fresh}
use nexustal.Storage.Execution.{exec-Executed}
use nexustal.Storage.Columns.{varchar}
use nexustal.Storage.Details.Laws.{find_if-last, answering}
use nexustal.Storage.{EnvironmentRow, has_project, Database, exec, GlobalsRow, Tables}
use nexustal.Domain.Environment.{variables_to_json, Environment, GlobalVariables}
use nexustal.Domain.Identity.{Timestamp, Uuid}
use nexustal.Domain.Json.{JsonLib}
use nexustal.Storage.Environments.{
  with_environment, environment_allowed, map_environment, environment_row, globals_row,
  find_environment_by_id, get_global_variables, set_global_variables, insert_globals,
  create_environment, upsert_globals, insert_environment,
}
use nexustal.Common.{
  ℕ, ◌≡◌, refl, sym, ap, ◌∙◌, subst, ◌≢◌, inl, inr, ◌&&◌, Option, some, List, [], ◌∷◌, arith,
  if◌then◌else◌, Bool-cases, Option-cases, Text, ◌==◌, eq_iff, eq_refl, find_if,
}

find_if-upsert :
    (row : GlobalsRow) (j : Uuid) (gs : List GlobalsRow)
    → find_if (λ g. g.project_id == j) (upsert_globals row gs)
      ≡ (if row.project_id == j then some row else find_if (λ g. g.project_id == j) gs)
unfolding upsert_globals
find_if-upsert row j [] = refl
find_if-upsert row j (g ∷ gs) = ground (
  arith,
  eq_iff g.project_id row.project_id,
  eq_iff g.project_id j,
  eq_iff row.project_id j,
  find_if-upsert row j gs,
)

abbrev pub globals_read : JsonLib → Uuid → Tables → Option GlobalVariables
globals_read lib j t = (get_global_variables lib j (answering t)).0

insert_globals-read :
    (lib : JsonLib) (globals : GlobalVariables) (j : Uuid) (t t' : Tables) (n : ℕ)
    → insert_globals (globals_row lib globals) t ≡ some (n, t')
    → globals_read lib j t'
      ≡ (if globals.project_id == j then some globals else globals_read lib j t)
unfolding insert_globals get_global_variables exec
insert_globals-read lib globals j t t' n h = elim (Bool-cases (has_project t globals.project_id)) [
  | inr unknown ↦ ground (arith, unknown)
  | inl known ↦
      let same : record t { globals = upsert_globals (globals_row lib globals) t.globals } ≡ t' =
        ground (arith, known) in
      subst
        (λ x.
          globals_read lib j x
          ≡ (if globals.project_id == j then some globals else globals_read lib j t))
        same
        (elim (Bool-cases (globals.project_id == j)) [
          | inl hit ↦
              rw
                (
                  find_if-upsert (globals_row lib globals) j t.globals,
                  hit,
                  variables_from_json-to_json lib globals.variables,
                )
                refl
          | inr miss ↦ rw (find_if-upsert (globals_row lib globals) j t.globals, miss) refl
        ])
]

insert_globals-one :
    (row : GlobalsRow) (t t' : Tables) (n : ℕ) → insert_globals row t ≡ some (n, t') → n ≡ 1
unfolding insert_globals
insert_globals-one row t t' n h = ground arith

-- Global variables that were set are read back while the server answers, with every variable in
-- order, and those of the other projects read as before. A call that reports failure leaves what
-- is read of every project.
pub set_global_variables-get :
    (lib : JsonLib) (globals : GlobalVariables) (j : Uuid) (db : Database)
    → globals_read lib j (set_global_variables lib globals db).1.tables ≡ (
        if (set_global_variables lib globals db).0 && globals.project_id == j
        then some globals
        else globals_read lib j db.tables)
unfolding set_global_variables
set_global_variables-get lib globals j db =
    elim (exec-Executed (insert_globals (globals_row lib globals)) db) [
      | inl (refusal, same) ↦ rw (refusal, same) refl
      | inr (n, t, e, found, new) ↦
          rw (found, new, insert_globals-one (globals_row lib globals) db.tables t n e)
            (insert_globals-read lib globals j db.tables t n e)
    ]

insert_environment-found :
    (lib : JsonLib) (env : Environment) (a : Uuid) (t t' : Tables)
    → insert_environment lib env t ≡ some (a, t')
    → (name : Text) × (varchar 120 env.name ≡ some name)
      × (a ≡ env.id)
      × (find_if (λ r. r.id == env.id) t'.environments
          ≡ some (environment_row name (variables_to_json lib env.variables) env t.now))
unfolding insert_environment
insert_environment-found lib env a t t' h = elim (Option-cases (varchar 120 env.name)) [
  | inl long ↦ ground (arith, long)
  | inr (name, fits) ↦ elim (Bool-cases (environment_allowed env t)) [
    | inr refusal ↦ ground (arith, fits, refusal)
    | inl ok ↦
        let row : EnvironmentRow =
          environment_row name (variables_to_json lib env.variables) env t.now in
        let same : with_environment row t ≡ t' = ground (arith, fits, ok) in
        (
          name,
          fits,
          ground (arith, fits, ok),
          subst (λ x. find_if (λ r. r.id == env.id) x.environments ≡ some row) same
              (find_if-last (λ r. r.id == env.id) row t.environments (ground (arith, ok))
                (eq_refl env.id)),
        )
  ]
]

abbrev created_environment : Uuid → Text → Timestamp → Environment → Environment
created_environment id name now env = record env {
  id = id;
  name = name;
  created_at = now;
  updated_at = now;
}

-- If creating an environment gives an identifier, its name fits the column, and looking the
-- identifier up while the server answers finds the environment with the name as stored, every
-- variable in order, and the server's time.
pub create_environment-find :
    (lib : JsonLib) (fresh : Uuid) (env : Environment) (db : Database) (id : Uuid)
    → id ≢ []
    → (create_environment lib fresh env db).0 ≡ id
    → (name : Text) × (varchar 120 env.name ≡ some name)
      × ((find_environment_by_id lib id
            (answering (create_environment lib fresh env db).1.tables)).0
          ≡ some (some (created_environment id name db.tables.now env)))
unfolding create_environment find_environment_by_id exec map_environment
create_environment-find lib fresh env db id named created =
    let prepared : Environment = record env { id = or_fresh fresh env.id } in
    elim (exec-Executed (insert_environment lib prepared) db) [
      | inl (refusal, _) ↦ absurd (named (sym created ∙ ap returned refusal))
      | inr (a, t, e, found, new) ↦
          let (name, fits, given, there) = insert_environment-found lib prepared a db.tables t e in
          let is_id : a ≡ id = sym (ap returned found) ∙ created in
          (
            name,
            fits,
            rw new (
                subst
                  (λ i.
                    (find_environment_by_id lib i (answering t)).0
                    ≡ some (some (created_environment i name db.tables.now env)))
                  (sym given ∙ is_id)
                  (rw (there, variables_from_json-to_json lib env.variables) refl)),
          )
    ]
