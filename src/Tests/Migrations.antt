-- ===== src/Tests/Migrations.antt =====
-- A directory with two migrations and a text, on a server that orders by bytes.
use nexustal.Platform.Migrations.Discovery.{
  AllEntriesApplied, run_directory_twice, discover-Ordered, Named,
}
use nexustal.Platform.Migrations.{
  apply_migration, thrown, applied, run_from, Migration, run_migrations, run_directory, discover,
  Entry, VersionOrder, steps_of,
}
use nexustal.Platform.Startup.{
  settings, env_or, RedisLib, redis_bootstrap, start_engine, bootstrap_failed, listening, is_digit,
}
use nexustal.Platform.Startup.Laws.{start_engine-port, value_from, is_thrown}
use nexustal.Platform.Versions.{
  binary_search, lower_bound, less, sort_by_key, insert_by_key, stem_and_extension, last_dot,
}
use nexustal.Platform.Versions.Order.{Ordered, sort_by_key-Ordered, any-sort_by_key}
use nexustal.Common.{
  ◌++◌, is_some, is_empty, count_if, false, ◌≤◌, ◌%◌, ◌^◌, if◌then◌else◌, ℕ, suc, ◌≡◌, refl, ◌≢◌,
  true, ◌&&◌, Option, none, some, List, [], ◌∷◌, arith, Text, lit, ◌==◌, All,
}

abbrev by_bytes : VersionOrder
by_bytes = record {
  order_versions = sort_by_key (λ v. v);
  any-order_versions = λ f versions. any-sort_by_key (λ v. v) (λ v. v == f) versions;
}

abbrev file : Text → Text → Entry
file name text = record { filename = name; is_regular_file = true; contents = some text }

abbrev directory : List Entry
directory =
    file (lit "002.sql") (lit "alter")
    ∷ file (lit "notes.txt") (lit "-")
    ∷ file (lit "001.sql") (lit "create")
    ∷ []

abbrev empty : Option (List Text) × ℕ
empty = (none, 0)

abbrev sql : Text → ℕ → Option ℕ
sql contents tables = some (suc tables)

both : (run_directory sql by_bytes (some directory) empty).0 ≡ applied 2
unfolding run_directory discover steps_of stem_and_extension last_dot sort_by_key insert_by_key less
    run_migrations binary_search lower_bound run_from apply_migration lit ◌==◌
both = refl

succeeds : (run_directory sql by_bytes (some directory) empty).0 ≢ thrown
succeeds e = absurd (ground (arith, both, e))

run_directory_twice_example :
    let after = (run_directory sql by_bytes (some directory) empty).1 in
    ((versions : List Text) × (after.0 ≡ some versions) × AllEntriesApplied directory versions)
    × (run_directory sql by_bytes (some directory) after ≡ (applied 0, after))
run_directory_twice_example =
    run_directory_twice sql by_bytes directory empty
      (λ versions. sort_by_key-Ordered (λ v. v) versions) succeeds

named : is_empty (lit "002") ≡ false
unfolding lit
named = refl

discover-Ordered_example :
    (ms : List Migration) × (discover (some directory) ≡ some ms)
    × Ordered (λ m. m.version) ms
    × All Named ms
    × (count_if (λ m. m.version == lit "002" && is_some m.contents) ms
        ≡ count_if
            (λ e.
              (e.is_regular_file && e.filename == lit "002" ++ lit ".sql") && is_some e.contents)
            directory)
discover-Ordered_example = discover-Ordered directory (lit "002") is_some named

abbrev broken : List Migration
broken =
    record { version = lit "001"; filename = lit "001.sql"; contents = some (lit "create") }
    ∷ record { version = lit "002"; filename = lit "002.sql"; contents = some (lit "alter") }
    ∷ []

abbrev no_variables : Text → Option Text
no_variables key = if key == lit "NEXUSTAL_HTTP_PORT" then some (lit "65616") else none

abbrev no_redis : RedisLib
no_redis = record { new_client = λ host port. false; new_streams = true; new_notifications = true }

port_given : (settings no_variables).http_port ≡ lit "65616"
unfolding settings env_or lit ◌==◌
port_given = refl

port_digits : All (λ d. is_digit d ≡ true) (lit "65616")
unfolding lit
port_digits = (refl, (refl, (refl, (refl, (refl, tt)))))

port_bound : value_from 0 (lit "65616") ≤ 2147483647
unfolding lit
port_bound = omega arith

start_engine-port_example :
    (start_engine no_variables no_redis sql by_bytes (some directory) empty).0 ≡ (
      if is_thrown (run_directory sql by_bytes (some directory) empty).0
      then bootstrap_failed
      else listening
          (redis_bootstrap no_redis (settings no_variables))
          (value_from 0 (lit "65616") % 2 ^ 16))
unfolding lit
start_engine-port_example =
    start_engine-port no_variables no_redis sql by_bytes (some directory) empty b'6' (lit "5616")
      port_given port_digits port_bound
