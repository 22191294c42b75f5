-- ===== src/Platform/Migrations/Discovery.antt =====
-- What is found in the directory, and a run on it.
use nexustal.Platform.Versions.{sort_by_key, last_dot, stem_and_extension}
use nexustal.Platform.Versions.Order.{
  count_if-sort_by_key, Ordered, Sorted, sort_by_key-Ordered, sort_by_key-All, any-sort_by_key,
}
use nexustal.Platform.Migrations.{
  run_migrations, VersionOrder, Entry, Migration, thrown, applied, is_migration, migration_of,
  steps_of, by_version, discover, run_directory, ensure_migration_table, is_applied,
}
use nexustal.Platform.Migrations.Laws.{run_migrations_twice, AllApplied}
use nexustal.Common.{
  count_if, false, Bool, is_empty, not, ◌||◌, eq_refl, ◌≡◌, refl, sym, ap, ◌∙◌, subst, ◌≢◌, inl,
  inr, true, ◌&&◌, Option, some, List, [], ◌∷◌, ◌++◌, append-nil, arith, Bool-cases, Option-cases,
  Text, lit, ◌==◌, eq_iff, any, All,
}

any-steps_of :
    (f : Text) (entries : List Entry)
    → any (λ m. m.filename == f) (steps_of entries)
      ≡ any (λ e. is_migration e && e.filename == f) entries
unfolding steps_of
any-steps_of f [] = refl
any-steps_of f (e ∷ es) = ground (arith, any-steps_of f es)

-- A name is its stem and its extension.
last_dot-append :
    (name stem extension : Text) → last_dot name ≡ some (stem, extension) → stem ++ extension ≡ name
unfolding last_dot
last_dot-append [] stem extension h = ground (arith, h)
last_dot-append (c ∷ s) stem extension h = elim (Option-cases (last_dot s)) [
  | inl missing ↦ ground (arith, missing, h)
  | inr ((a, b), found) ↦ ground (arith, found, h, last_dot-append s a b found)
]

stem_and_extension-append :
    (name : Text) → (stem_and_extension name).0 ++ (stem_and_extension name).1 ≡ name
unfolding stem_and_extension
stem_and_extension-append name = elim (Option-cases (last_dot name)) [
  | inl missing ↦ rw missing (append-nil name)
  | inr (([], b), found) ↦ rw found (append-nil name)
  | inr ((c ∷ a, b), found) ↦ rw found (last_dot-append name (c ∷ a) b found)
]

abbrev pub Named : Migration → Type 0
Named m = (is_empty m.version ≡ false) × (m.version ++ lit ".sql" ≡ m.filename)

no_extension : ([] == lit ".sql") ≡ false
unfolding lit ◌==◌
no_extension = refl

stem-not_empty :
    (name : Text)
    → ((stem_and_extension name).1 == lit ".sql") ≡ true
    → is_empty (stem_and_extension name).0 ≡ false
unfolding stem_and_extension
stem-not_empty name h = elim (Option-cases (last_dot name)) [
  | inl missing ↦ absurd (ground (arith, missing, h, no_extension))
  | inr (([], b), found) ↦ absurd (ground (arith, found, h, no_extension))
  | inr ((c ∷ a, b), found) ↦ rw found refl
]

migration_of-Named : (e : Entry) → is_migration e ≡ true → Named (migration_of e)
migration_of-Named e h =
    let ends : ((stem_and_extension e.filename).1 == lit ".sql") ≡ true = ground (arith, h) in
    (
      stem-not_empty e.filename ends,
      ap (λ x. (stem_and_extension e.filename).0 ++ x) (sym ((eq_iff _ _).0 ends))
          ∙ stem_and_extension-append e.filename,
    )

steps_of-Named : (entries : List Entry) → All Named (steps_of entries)
unfolding steps_of
steps_of-Named [] = tt
steps_of-Named (e ∷ es) = elim (Bool-cases (is_migration e)) [
  | inl found ↦ rw found (migration_of-Named e found, steps_of-Named es)
  | inr other ↦ rw other (steps_of-Named es)
]

-- The last dot of a name that ends in ".sql" is that of the ending.
last_dot-sql : (stem : Text) → last_dot (stem ++ lit ".sql") ≡ some (stem, lit ".sql")
unfolding last_dot lit
last_dot-sql [] = refl
last_dot-sql (c ∷ stem) = rw (last_dot, last_dot-sql stem) refl

stem_and_extension-sql :
    (stem : Text)
    → is_empty stem ≡ false
    → stem_and_extension (stem ++ lit ".sql") ≡ (stem, lit ".sql")
unfolding stem_and_extension
stem_and_extension-sql [] h = absurd (ground (arith, h))
stem_and_extension-sql (c ∷ stem) h = rw (last_dot-sql (c ∷ stem)) refl

-- What `is_migration` and the version say together of a name.
named_by_version :
    (name version : Text)
    → is_empty version ≡ false
    → ((stem_and_extension name).1 == lit ".sql" && (stem_and_extension name).0 == version)
      ≡ (name == version ++ lit ".sql")
named_by_version name version h = elim (Bool-cases (name == version ++ lit ".sql")) [
  | inl same ↦
      let parts : stem_and_extension name ≡ (version, lit ".sql") =
        ap stem_and_extension ((eq_iff name (version ++ lit ".sql")).0 same)
        ∙ stem_and_extension-sql version h in
      rw (parts, same, eq_refl version, eq_refl (lit ".sql")) refl
  | inr other ↦
      elim (Bool-cases
        ((stem_and_extension name).1 == lit ".sql" && (stem_and_extension name).0 == version)) [
          | inl both ↦
              let ends : (stem_and_extension name).1 ≡ lit ".sql" =
                (eq_iff _ _).0 (ground (arith, both)) in
              let begins : (stem_and_extension name).0 ≡ version =
                (eq_iff _ _).0 (ground (arith, both)) in
              let whole : version ++ lit ".sql" ≡ name =
                ap (λ x. x ++ lit ".sql") (sym begins)
                ∙ ap (λ x. (stem_and_extension name).0 ++ x) (sym ends)
                ∙ stem_and_extension-append name in
              absurd (ground (arith, other, (eq_iff name (version ++ lit ".sql")).1 (sym whole)))
          | inr neither ↦ neither ∙ sym other
        ]
]

count_if-steps_of :
    (version : Text) (p : Option Text → Bool) (entries : List Entry)
    → is_empty version ≡ false
    → count_if (λ m. m.version == version && p m.contents) (steps_of entries)
      ≡ count_if
          (λ e. (e.is_regular_file && e.filename == version ++ lit ".sql") && p e.contents)
          entries
unfolding steps_of
count_if-steps_of version p [] h = refl
count_if-steps_of version p (e ∷ es) h =
    ground (arith, count_if-steps_of version p es h, named_by_version e.filename version h)

-- The migrations of a directory are its regular files whose names end in ".sql" behind at least
-- one character, each named by its version, in the order of their versions: for each version that
-- is not empty, and whatever is asked of the contents, there are as many migrations of it as there
-- are regular files named by the version and ".sql".
pub discover-Ordered :
    (entries : List Entry) (version : Text) (p : Option Text → Bool)
    → is_empty version ≡ false
    → (ms : List Migration) × (discover (some entries) ≡ some ms)
      × Ordered by_version ms
      × All Named ms
      × (count_if (λ m. m.version == version && p m.contents) ms
          ≡ count_if
              (λ e. (e.is_regular_file && e.filename == version ++ lit ".sql") && p e.contents)
              entries)
unfolding discover
discover-Ordered entries version p h = (
  sort_by_key by_version (steps_of entries),
  refl,
  sort_by_key-Ordered by_version (steps_of entries),
  sort_by_key-All by_version Named (steps_of entries) (steps_of-Named entries),
  count_if-sort_by_key by_version _ (steps_of entries) ∙ count_if-steps_of version p entries h,
)

AllApplied-any :
    (ms : List Migration) (versions : List Text) (f : Text)
    → AllApplied ms versions
    → any (λ m. m.filename == f) ms ≡ true
    → is_applied f versions ≡ true
AllApplied-any [] versions f h k = ground (arith, k)
AllApplied-any (m ∷ ms) versions f (first, rest) k = elim (Bool-cases (m.filename == f)) [
  | inl here ↦ subst (λ g. is_applied g versions ≡ true) ((eq_iff m.filename f).0 here) first
  | inr there ↦ AllApplied-any ms versions f rest (ground (arith, there, k))
]

-- Every migration among the entries has been applied.
abbrev pub AllEntriesApplied : List Entry → List Text → Type 0
AllEntriesApplied entries versions =
    All (λ e. (not (is_migration e) || is_applied e.filename versions) ≡ true) entries

-- What is known of every name is known of every entry.
entries-applied :
    (entries : List Entry) (versions : List Text)
    → ((f : Text)
        → any (λ e. is_migration e && e.filename == f) entries ≡ true
        → is_applied f versions ≡ true)
    → AllEntriesApplied entries versions
entries-applied [] versions h = tt
entries-applied (e ∷ es) versions h = (
  ground (arith, h e.filename, eq_refl e.filename),
  entries-applied es versions (λ f k. h f (ground (arith, k))),
)

-- A start that throws nothing leaves every migration of the directory in the table of versions,
-- and a second start on the same directory applies none and changes nothing. The directory is
-- there, and the server orders versions by bytes.
pub run_directory_twice :
    {S : Type 0} (sql : Text → S → Option S) (server : VersionOrder) (entries : List Entry)
    (database : Option (List Text) × S)
    → ((versions : List Text) → Sorted (server.order_versions versions))
    → (run_directory sql server (some entries) database).0 ≢ thrown
    → let after = (run_directory sql server (some entries) database).1 in
      ((versions : List Text) × (after.0 ≡ some versions) × AllEntriesApplied entries versions)
      × (run_directory sql server (some entries) after ≡ (applied 0, after))
unfolding run_directory discover
run_directory_twice sql server entries (versions, tables) by_bytes h =
    let ms = sort_by_key by_version (steps_of entries) in
    let schema = ensure_migration_table versions tables in
    let (all, again) = run_migrations_twice sql server ms schema by_bytes h in
    (
      (
        _,
        refl,
        entries-applied entries (run_migrations sql server ms schema).1.versions (λ f found.
            AllApplied-any ms _ f all
              (any-sort_by_key by_version _ (steps_of entries) ∙ any-steps_of f entries ∙ found)),
      ),
      ap (λ r. (r.0, (some r.1.versions, r.1.tables))) again,
    )
