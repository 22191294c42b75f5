-- ===== src/Platform/Migrations.antt =====
-- backend/src/platform/migration_runner.cpp. The disk holds the files of the directory, by name and
-- contents; running the SQL of a file, and the order of the server's collation, are parameters. An
-- exception that leaves the runner is the failure of the result.
pub mod Laws
pub mod Discovery
use mathlib.Core.Option
use nexustal.Platform.Versions.{sort_by_key, binary_search, stem_and_extension}
use nexustal.Common.{
  ℕ, zero, suc, ◌+◌, ◌-◌, ◌*◌, ◌/◌, ◌%◌, ◌^◌, ◌≤◌, ◌<◌, String, ◌≡◌, refl, sym, ap, ◌∙◌, subst, ◌≢◌,
  ◌↔◌, ◌⊎◌, inl, inr, Bool, true, false, not, ◌&&◌, ◌||◌, Option, none, some, List, [], ◌∷◌, ◌++◌,
  append_assoc, append-nil, arith, ltb, leb, eqb, if◌then◌else◌, Bool-cases, Option-cases, is_some,
  Text, lit, ◌==◌, is_empty, eq_iff, eq_refl, ==-false, length, length-append, find_if, get_elem?,
  modify, take-length, drop-length, take, drop, drop-zero, take-append, drop-append, update_where,
  count_if, count_if-pos, find_if-any, find_if-holds, insert_desc, order_desc, any-insert_desc,
  any-order_desc, All-insert_desc, All-order_desc, find_if-All, any-select, any-false, any_mono,
  any-append, All-append, All-select_self, find_if_unique, any, select, All, All-select, Dict,
  lookup, put, without, lookup-put, lookup-without, Action, ◌>>=◌, ◌>>◌, pure,
}

-- An entry of the directory; nothing where its contents cannot be read.
pub record Entry : Type 0 where
  pub filename : Text
  pub is_regular_file : Bool
  pub contents : Option Text

-- `MigrationStep`, and what the file holds.
pub record Migration : Type 0 where
  pub version : Text
  pub filename : Text
  pub contents : Option Text

-- `schema_migrations` and all other tables.
pub record Schema (S : Type 0) : Type 0 where
  pub versions : List Text
  pub tables : S

abbrev pub is_migration : Entry → Bool
is_migration entry = entry.is_regular_file && (stem_and_extension entry.filename).1 == lit ".sql"

abbrev pub migration_of : Entry → Migration
migration_of entry = record {
  version = (stem_and_extension entry.filename).0;
  filename = entry.filename;
  contents = entry.contents;
}

unfoldable pub steps_of : List Entry → List Migration
steps_of [] = []
steps_of (entry ∷ entries) =
    let rest = steps_of entries in if is_migration entry then migration_of entry ∷ rest else rest

abbrev pub by_version : Migration → Text
by_version migration = migration.version

-- `discover`; nothing where the directory is missing.
unfoldable pub discover : Option (List Entry) → Option (List Migration)
unfolding steps_of
discover none = none
discover (some entries) = some (sort_by_key by_version (steps_of entries))

-- What ran: the number of the migrations applied, or an exception.
pub data Outcome : Type 0 where
  applied : ℕ → Outcome
  thrown : Outcome

abbrev pub next_count : Outcome → Outcome
next_count thrown = thrown
next_count (applied n) = applied (suc n)

abbrev pub is_applied : Text → List Text → Bool
is_applied filename versions = any (λ v. v == filename) versions

-- Nothing where the file cannot be opened, is empty, or the transaction is rolled back, be it for
-- its SQL or for a version that is there already.
unfoldable pub apply_migration :
    {S : Type 0} → (Text → S → Option S) → Migration → Schema S → Option (Schema S)
apply_migration sql migration schema = elim migration.contents [
  | none ↦ none
  | some contents ↦
      if is_empty contents || is_applied migration.filename schema.versions
      then none
      else Option.map
          (λ tables. record {
            versions = schema.versions ++ migration.filename ∷ [];
            tables = tables;
          })
          (sql contents schema.tables)
]

-- The loop over the migrations found; `already` tells what had been applied before it.
unfoldable pub run_from :
    {S : Type 0}
    → (Text → S → Option S)
    → (already : Text → Bool) → List Migration
    → Schema S
    → Outcome × Schema S
unfolding apply_migration
run_from sql already [] schema = (applied 0, schema)
run_from sql already (migration ∷ migrations) schema = elim (already migration.filename) [
  | true ↦ run_from sql already migrations schema
  | false ↦ elim (apply_migration sql migration schema) [
    | none ↦ (thrown, schema)
    | some schema' ↦
        let (outcome, last) = run_from sql already migrations schema' in (next_count outcome, last)
  ]
]

-- `ORDER BY version ASC` of a server, and what a search by bytes relies on.
pub record VersionOrder : Type 0 where
  pub order_versions : List Text → List Text
  pub any-order_versions :
      (f : Text) (versions : List Text)
      → is_applied f (order_versions versions) ≡ is_applied f versions

-- `run`, on what `discover` gives; `appliedVersions` gives the versions in the server's order.
unfoldable pub run_migrations :
    {S : Type 0}
    → (Text → S → Option S)
    → VersionOrder
    → List Migration
    → Schema S
    → Outcome × Schema S
unfolding run_from
run_migrations sql server migrations schema =
    run_from sql (binary_search (server.order_versions schema.versions)) migrations schema

-- `ensureMigrationTable`, on the versions where the table exists.
abbrev pub ensure_migration_table : {S : Type 0} → Option (List Text) → S → Schema S
ensure_migration_table none tables = record { versions = []; tables = tables }
ensure_migration_table (some versions) tables = record { versions = versions; tables = tables }

abbrev pub run_found :
    {S : Type 0}
    → (Text → S → Option S)
    → VersionOrder
    → Option (List Migration)
    → Option (List Text) × S
    → Outcome × (Option (List Text) × S)
run_found sql server none database = (thrown, database)
run_found sql server (some migrations) (versions, tables) =
    let (outcome, schema) =
      run_migrations sql server migrations (ensure_migration_table versions tables) in
    (outcome, (some schema.versions, schema.tables))

-- `run` on a directory and a database.
unfoldable pub run_directory :
    {S : Type 0}
    → (Text → S → Option S)
    → VersionOrder
    → Option (List Entry)
    → Option (List Text) × S
    → Outcome × (Option (List Text) × S)
unfolding discover run_migrations
run_directory sql server directory database = run_found sql server (discover directory) database
