-- ===== src/Platform/Migrations/Laws.antt =====
-- Each migration is applied once.
use nexustal.Platform.Versions.{binary_search}
use nexustal.Platform.Versions.Search.{binary_search-any}
use nexustal.Platform.Versions.Order.{Sorted}
use nexustal.Platform.Migrations.{
  VersionOrder, run_migrations, thrown, applied, Schema, apply_migration, Migration, run_from,
  is_applied,
}
use nexustal.Common.{
  Bool, sym, ◌∙◌, subst, ◌≡◌, refl, ◌≢◌, inl, inr, true, ◌||◌, Option, some, List, [], ◌∷◌, ◌++◌,
  arith, Bool-cases, Option-cases, Text, ◌==◌, eq_refl, All,
}

is_applied-append :
    (f g : Text) (versions : List Text)
    → is_applied f (versions ++ g ∷ []) ≡ (is_applied f versions || (g == f))
is_applied-append f g [] = ground arith
is_applied-append f g (v ∷ vs) = ground (arith, is_applied-append f g vs)

-- What one migration that is not refused does to the table of versions.
apply_migration-versions :
    {S : Type 0} (sql : Text → S → Option S) (m : Migration) (schema schema' : Schema S) (f : Text)
    → apply_migration sql m schema ≡ some schema'
    → is_applied f schema'.versions ≡ (is_applied f schema.versions || (m.filename == f))
unfolding apply_migration
apply_migration-versions sql m schema schema' f e =
    ground (arith, is_applied-append f m.filename schema.versions)

-- No version is ever taken out of the table, whether or not the run succeeds.
run_from-keeps :
    {S : Type 0} (sql : Text → S → Option S) (already : Text → Bool) (ms : List Migration)
    (schema : Schema S) (f : Text)
    → is_applied f schema.versions ≡ true
    → is_applied f (run_from sql already ms schema).1.versions ≡ true
unfolding run_from
run_from-keeps sql already [] schema f h = h
run_from-keeps sql already (m ∷ ms) schema f h =
    elim (Option-cases (apply_migration sql m schema)) [
      | inl refused ↦ ground (arith, refused, run_from-keeps sql already ms schema f h)
      | inr (schema', done) ↦ ground (
        arith,
        done,
        run_from-keeps sql already ms schema f h,
        run_from-keeps sql already ms schema' f,
        apply_migration-versions sql m schema schema' f done,
      )
    ]

abbrev pub AllApplied : List Migration → List Text → Type 0
AllApplied ms versions = All (λ m. is_applied m.filename versions ≡ true) ms

run_from-AllApplied :
    {S : Type 0} (sql : Text → S → Option S) (already : Text → Bool) (ms : List Migration)
    (schema : Schema S)
    → ((f : Text) → already f ≡ true → is_applied f schema.versions ≡ true)
    → (run_from sql already ms schema).0 ≢ thrown
    → AllApplied ms (run_from sql already ms schema).1.versions
unfolding run_from
run_from-AllApplied sql already [] schema sub h = tt
run_from-AllApplied sql already (m ∷ ms) schema sub h = elim (Bool-cases (already m.filename)) [
  | inl present ↦
      let last : (run_from sql already ms schema).1.versions
          ≡ (run_from sql already (m ∷ ms) schema).1.versions =
        ground (arith, present) in
      subst (AllApplied (m ∷ ms)) last (
        run_from-keeps sql already ms schema m.filename (sub m.filename present),
        run_from-AllApplied sql already ms schema sub (λ e. h (ground (arith, present, e))),
      )
  | inr absent ↦ elim (Option-cases (apply_migration sql m schema)) [
    | inl refused ↦ absurd (h (ground (arith, absent, refused)))
    | inr (schema', done) ↦
        let versions = apply_migration-versions sql m schema schema' in
        let last : (run_from sql already ms schema').1.versions
            ≡ (run_from sql already (m ∷ ms) schema).1.versions =
          ground (arith, absent, done) in
        subst (AllApplied (m ∷ ms)) last (
          run_from-keeps sql already ms schema' m.filename
              (ground (arith, versions m.filename done, eq_refl m.filename)),
          run_from-AllApplied sql already ms schema'
              (λ f p. ground (arith, versions f done, sub f p))
              (λ e. h (ground (arith, absent, done, e))),
        )
  ]
]

abbrev AllPresent : List Migration → (Text → Bool) → Type 0
AllPresent ms already = All (λ m. already m.filename ≡ true) ms

AllApplied-AllPresent :
    (ms : List Migration) (versions : List Text) (already : Text → Bool)
    → ((f : Text) → already f ≡ is_applied f versions)
    → AllApplied ms versions
    → AllPresent ms already
AllApplied-AllPresent [] versions already same h = tt
AllApplied-AllPresent (m ∷ ms) versions already same (here, rest) =
    (same m.filename ∙ here, AllApplied-AllPresent ms versions already same rest)

run_from_again :
    {S : Type 0} (sql : Text → S → Option S) (already : Text → Bool) (ms : List Migration)
    (schema : Schema S)
    → AllPresent ms already
    → run_from sql already ms schema ≡ (applied 0, schema)
unfolding run_from
run_from_again sql already [] schema h = refl
run_from_again sql already (m ∷ ms) schema (here, rest) =
    rw (here, run_from) (run_from_again sql already ms schema rest)

-- What the search answers, where the server orders by bytes.
binary_search-is_applied :
    (server : VersionOrder) (versions : List Text) (f : Text)
    → Sorted (server.order_versions versions)
    → binary_search (server.order_versions versions) f ≡ is_applied f versions
binary_search-is_applied server versions f s =
    binary_search-any (server.order_versions versions) f s ∙ server.any-order_versions f versions

-- A run that throws nothing leaves every migration that was found in the table of versions, so that
-- running again at once applies none and changes nothing. The server orders versions as the
-- strings of the program are ordered, by bytes.
pub run_migrations_twice :
    {S : Type 0} (sql : Text → S → Option S) (server : VersionOrder) (ms : List Migration)
    (schema : Schema S)
    → ((versions : List Text) → Sorted (server.order_versions versions))
    → (run_migrations sql server ms schema).0 ≢ thrown
    → AllApplied ms (run_migrations sql server ms schema).1.versions
      × (run_migrations sql server ms (run_migrations sql server ms schema).1
          ≡ (applied 0, (run_migrations sql server ms schema).1))
unfolding run_migrations
run_migrations_twice sql server ms schema by_bytes h =
    let present = λ (versions : List Text) (f : Text).
      binary_search-is_applied server versions f (by_bytes versions) in
    let all = run_from-AllApplied sql _ ms schema (λ f p. sym (present schema.versions f) ∙ p) h in
    let last = (run_from sql (binary_search (server.order_versions schema.versions)) ms schema).1 in
    (
      all,
      run_from_again sql _ ms last
          (AllApplied-AllPresent ms last.versions _ (present last.versions) all),
    )

-- However a run ends, it takes no version out of the table.
pub run_migrations-keeps :
    {S : Type 0} (sql : Text → S → Option S) (server : VersionOrder) (ms : List Migration)
    (schema : Schema S) (f : Text)
    → is_applied f schema.versions ≡ true
    → is_applied f (run_migrations sql server ms schema).1.versions ≡ true
unfolding run_migrations
run_migrations-keeps sql server ms schema f h = run_from-keeps sql _ ms schema f h
