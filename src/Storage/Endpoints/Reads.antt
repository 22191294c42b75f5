-- ===== src/Storage/Endpoints/Reads.antt =====
-- The reads of the endpoint repository leave the tables, and what they find is there.
use nexustal.Storage.Attempts.Laws.{exec-Keeps, >>=-Keeps, >>=-done, attempt-done, Keeps}
use nexustal.Storage.Attempts.{attempt, pure, ◌>>=◌, done, refused, thrown, Attempt, rescued}
use nexustal.Storage.Details.{is_detail, columns_of, read_details, select_detail, load_details}
use nexustal.Storage.Endpoints.{
  map_base_endpoint, select_endpoint, select_project, find_endpoint, find_endpoint_by_id,
  find_endpoints_by_project, load_endpoint, load_endpoints, collected,
}
use nexustal.Storage.{exec, Database, EndpointRow, Tables}
use nexustal.Domain.Endpoint.{Endpoint, EndpointDetails}
use nexustal.Domain.Identity.{Uuid}
use nexustal.Domain.Json.{JsonLib}
use mathlib.Core.Option
use nexustal.Common.{
  ◌≡◌, refl, sym, ap, ◌∙◌, subst, inl, inr, Option, none, some, List, [], ◌∷◌, arith, Option-cases,
  ◌==◌, find_if, order_desc, select,
}

module _ {ℓ} (P : Tables → Type ℓ) where
  pub read-Keeps : {A : Type 0} (f : Tables → A) → Keeps P (exec (λ t. some (f t, t)))
  read-Keeps f =
      exec-Keeps P (λ t. some (f t, t))
        λ t t' a h e. subst P (let same : t ≡ t' = ground arith in same) h

  pub load_endpoint-Keeps : (lib : JsonLib) (row : EndpointRow) → Keeps P (load_endpoint lib row)
  unfolding load_endpoint load_details select_detail
  load_endpoint-Keeps lib row =
      let base = map_base_endpoint row in
      >>=-Keeps P (load_details lib base.id base.kind) (λ d. pure (record base { details = d }))
        (>>=-Keeps P (attempt (select_detail base.kind base.id))
          (λ found db. (read_details lib base.kind found, db))
          (read-Keeps
            (λ t. Option.map columns_of (find_if (is_detail base.kind base.id) t.details)))
          λ found db h. h)
        λ d db h. h

  find_endpoint-Keeps : (lib : JsonLib) (o : Option EndpointRow) → Keeps P (find_endpoint lib o)
  unfolding find_endpoint
  find_endpoint-Keeps lib none db h = h
  find_endpoint-Keeps lib (some row) db h =
      >>=-Keeps P (load_endpoint lib row) (λ e. pure (some e)) (load_endpoint-Keeps lib row)
        (λ e d k. k) db h

  pub find_endpoint_by_id-Keeps : (lib : JsonLib) (id : Uuid) → Keeps P (find_endpoint_by_id lib id)
  unfolding find_endpoint_by_id select_endpoint
  find_endpoint_by_id-Keeps lib id =
      >>=-Keeps P (attempt (select_endpoint id)) (find_endpoint lib)
        (read-Keeps (λ t. find_if (λ r. r.id == id) t.endpoints)) (find_endpoint-Keeps lib)

  collected-Keeps :
      (r : Attempt Endpoint × Database) (later : Option (List Endpoint) × Database)
      → P r.1.tables
      → P later.1.tables
      → P (collected r later).1.tables
  collected-Keeps (done e, db) later h k = k
  collected-Keeps (refused, db) later h k = h
  collected-Keeps (thrown, db) later h k = h

  load_endpoints-Keeps :
      (lib : JsonLib) (rows : List EndpointRow) → Keeps P (load_endpoints lib rows)
  unfolding load_endpoints
  load_endpoints-Keeps lib [] db h = h
  load_endpoints-Keeps lib (row ∷ rows) db h =
      collected-Keeps (load_endpoint lib row db)
        (load_endpoints lib rows (load_endpoint lib row db).1) (load_endpoint-Keeps lib row db h)
        (load_endpoints-Keeps lib rows (load_endpoint lib row db).1
          (load_endpoint-Keeps lib row db h))

  pub find_endpoints_by_project-Keeps :
      (lib : JsonLib) (project_id : Uuid) → Keeps P (find_endpoints_by_project lib project_id)
  unfolding find_endpoints_by_project select_project
  find_endpoints_by_project-Keeps lib project_id db h =
      let rows = order_desc (λ r. r.updated_at) in
      let chosen = λ (t : Tables). rows (select (λ r. r.project_id == project_id) t.endpoints) in
      let kept = read-Keeps chosen db h in
      elim (Option-cases (exec (λ t. some (chosen t, t)) db).0) [
        | inl missing ↦ rw (find_endpoints_by_project, missing) kept
        | inr (found, e) ↦ rw (find_endpoints_by_project, e) (load_endpoints-Keeps lib found _ kept)
      ]

rescued-done :
    (r : Attempt (Option Endpoint)) (e : Endpoint)
    → rescued none r ≡ some (some e)
    → r ≡ done (some e)
rescued-done (done o) e h = ground (arith, h)
rescued-done refused e h = ground (arith, h)
rescued-done thrown e h = ground (arith, h)

abbrev pub Read : EndpointRow → Endpoint → Type 0
Read row e =
    (details : EndpointDetails) × (e ≡ record (map_base_endpoint row) { details = details })

done-same : (a b : Endpoint) → done a ≡ done b → a ≡ b
done-same a b h = ground (arith, h)

load_endpoint-Read :
    (lib : JsonLib) (row : EndpointRow) (db : Database) (e : Endpoint)
    → (load_endpoint lib row db).0 ≡ done e
    → Read row e
unfolding load_endpoint
load_endpoint-Read lib row db e h =
    let base = map_base_endpoint row in
    let (details, loaded, given, _) =
      >>=-done (load_details lib base.id base.kind) (λ d. pure (record base { details = d })) db e
        h in
    (details, sym (done-same _ _ given))

find_endpoint-Read :
    (lib : JsonLib) (o : Option EndpointRow) (db : Database) (e : Endpoint)
    → (find_endpoint lib o db).0 ≡ done (some e)
    → (row : EndpointRow) × (o ≡ some row) × Read row e
unfolding find_endpoint
find_endpoint-Read lib none db e h = absurd (ground (arith, h))
find_endpoint-Read lib (some row) db e h =
    let (read, loaded, given, _) =
      >>=-done (load_endpoint lib row) (λ x. pure (some x)) db (some e) h in
    let same : read ≡ e = ground (arith, given) in
    (row, refl, load_endpoint-Read lib row db e (loaded ∙ ap done same))

-- An endpoint that is found is the row of that identifier, with details.
pub find_endpoint_by_id-Read :
    (lib : JsonLib) (id : Uuid) (db : Database) (e : Endpoint)
    → (find_endpoint_by_id lib id db).0 ≡ some (some e)
    → (row : EndpointRow) × (find_if (λ r. r.id == id) db.tables.endpoints ≡ some row) × Read row e
unfolding find_endpoint_by_id select_endpoint
find_endpoint_by_id-Read lib id db e h =
    let select_row = attempt (select_endpoint id) in
    let (o, answered, found, _) =
      >>=-done select_row (find_endpoint lib) db (some e)
        (rescued-done ((select_row >>= find_endpoint lib) db).0 e h) in
    let selected = attempt-done (select_endpoint id) db o answered in
    let (row, same, read) = find_endpoint-Read lib o (select_row db).1 e found in
    (row, ap (λ r. elim r [ none ↦ none | some p ↦ p.0 ]) selected ∙ same, read)
