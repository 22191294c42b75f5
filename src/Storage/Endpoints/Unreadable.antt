-- ===== src/Storage/Endpoints/Unreadable.antt =====
-- Endpoints whose details cannot be read.
use nexustal.Domain.Identity.{Uuid}
use nexustal.Storage.Details.Laws.{Stands, unreadable-Stands, answering}
use nexustal.Domain.Endpoint.{
  of_rest, rest, RestDetails, Endpoint, endpoint_type_from_string, EndpointType,
}
use nexustal.Storage.{DetailColumns, exec, Tables, EndpointRow, Database}
use nexustal.Storage.Endpoints.Laws.{
  find_endpoint_by_id-found, create_endpoint_row-Created, found_as,
}
use nexustal.Storage.Endpoints.{
  new_row, find_endpoint_by_id, create_endpoint_row, collected, select_project, map_base_endpoint,
  find_endpoints_by_project, load_endpoint, load_endpoints,
}
use nexustal.Domain.Json.{JsonLib}
use nexustal.Storage.Attempts.{next, thrown, refused, Attempt, pure, done}
use nexustal.Storage.Details.{raw_of, read_columns, read_details, select_detail, load_details}
use nexustal.Common.{
  ◌≡◌, refl, sym, ◌∙◌, subst, ◌≢◌, ◌⊎◌, inl, inr, Bool, true, false, ◌&&◌, ◌||◌, Option, none, some,
  List, [], ◌∷◌, arith, Bool-cases, Option-cases, ◌==◌, eq_refl, find_if, any-order_desc,
  any-select, any, select,
}

is_thrown : {A : Type 0} → Attempt A → Bool
is_thrown (done a) = false
is_thrown refused = false
is_thrown thrown = true

-- While the server answers, a row gives an endpoint or throws.
Answered : {A : Type 0} → Attempt A × Database → Database → Type 0
Answered {A} r db = ((a : A) × (r ≡ (done a, db))) ⊎ (r ≡ (thrown, db))

read_details-Answered :
    (lib : JsonLib) (row : EndpointRow) (kind : EndpointType) (o : Option DetailColumns)
    (db : Database)
    → Answered
        (next
          (read_details lib kind o)
          (λ d. pure (record (map_base_endpoint row) { details = d }))
          db)
        db
unfolding Answered
read_details-Answered lib row kind none db = inl (_, refl)
read_details-Answered lib row kind (some c) db = elim (Option-cases (read_columns lib c)) [
  | inl bad ↦ inr (rw bad refl)
  | inr (d, good) ↦ inl (record (map_base_endpoint row) { details = d }, rw good refl)
]

load_endpoint-Answered :
    (lib : JsonLib) (row : EndpointRow) (t : Tables)
    → Answered (load_endpoint lib row (answering t)) (answering t)
unfolding Answered load_endpoint load_details select_detail exec
load_endpoint-Answered lib row t =
    read_details-Answered lib row (map_base_endpoint row).kind _ (answering t)

-- One row that throws makes the loop throw.
load_endpoints-thrown :
    (lib : JsonLib) (rows : List EndpointRow) (t : Tables)
    → any (λ r. is_thrown (load_endpoint lib r (answering t)).0) rows ≡ true
    → (load_endpoints lib rows (answering t)).0 ≡ none
unfolding load_endpoints is_thrown Answered
load_endpoints-thrown lib [] t h = ground arith
load_endpoints-thrown lib (row ∷ rows) t h = elim (load_endpoint-Answered lib row t) [
  | inr bad ↦ subst (λ r. (collected r (load_endpoints lib rows r.1)).0 ≡ none) (sym bad) refl
  | inl (e, good) ↦
      subst (λ r. (collected r (load_endpoints lib rows r.1)).0 ≡ none) (sym good)
        (rw
          (load_endpoints-thrown lib rows t (
            subst
              (λ r.
                (is_thrown r.0 || any (λ x. is_thrown (load_endpoint lib x (answering t)).0) rows)
                ≡ true)
              good h))
          refl)
]

find_if-selects :
    {A : Type 0} (p q : A → Bool) (xs : List A) (y : A)
    → find_if p xs ≡ some y
    → q y ≡ true
    → any q xs ≡ true
find_if-selects p q [] y h k = ground arith
find_if-selects p q (x ∷ xs) y h k = elim (Bool-cases (p x)) [
  | inl hit ↦ rw (let same : y ≡ x = ground (arith, hit) in subst (λ z. q z ≡ true) same k) refl
  | inr miss ↦ ground (arith, miss, find_if-selects p q xs y)
]

load_endpoint-thrown :
    (lib : JsonLib) (row : EndpointRow) (t : Tables)
    → (load_details lib row.id (endpoint_type_from_string row.kind) (answering t)).0 ≡ thrown
    → is_thrown (load_endpoint lib row (answering t)).0 ≡ true
unfolding is_thrown load_endpoint map_base_endpoint
load_endpoint-thrown lib row t h = rw h refl

-- An endpoint of type REST whose body is an object with a member `raw` that is no text can be
-- created without a raw body. While the server answers, the look-up of the created endpoint then
-- throws, and so does the list of the endpoints of its project.
pub create_endpoint_row-unreadable :
    (lib : JsonLib) (kept : Bool) (fresh : Uuid) (e : Endpoint) (d : RestDetails) (db : Database)
    (id : Uuid)
    → e.kind ≡ rest
    → e.details ≡ of_rest d
    → d.body_raw ≡ []
    → raw_of lib d.body ≡ none
    → id ≢ []
    → (create_endpoint_row lib kept fresh e db).0 ≡ some id
    → ((find_endpoint_by_id lib id (answering (create_endpoint_row lib kept fresh e db).1.tables)).0
        ≡ none)
      × ((find_endpoints_by_project lib e.project_id
            (answering (create_endpoint_row lib kept fresh e db).1.tables)).0
          ≡ none)
unfolding found_as find_endpoints_by_project select_project exec
create_endpoint_row-unreadable lib kept fresh e d db id is_rest is_details empty unreadable named
      created =
    let after : Tables = (create_endpoint_row lib kept fresh e db).1.tables in
    let (c, stands) = unreadable-Stands lib d empty unreadable in
    let (status, (fits, found, loaded)) =
      create_endpoint_row-Created lib kept fresh e db id (rw (is_rest, is_details) refl) named
        created none c (subst (λ x. Stands lib x none c) (sym is_details) stands) in
    (
      find_endpoint_by_id-found lib id (new_row id status e db.tables.now) none _ found loaded,
      load_endpoints-thrown lib _ _ (
          any-order_desc (λ r. is_thrown (load_endpoint lib r (answering after)).0)
            (λ r. r.updated_at) (select (λ r. r.project_id == e.project_id) after.endpoints)
          ∙ (any-select (λ r. r.project_id == e.project_id)
                (λ r. is_thrown (load_endpoint lib r (answering after)).0) after.endpoints
              ∙ find_if-selects (λ r. r.id == id)
                  (λ r.
                    r.project_id == e.project_id
                    && is_thrown (load_endpoint lib r (answering after)).0)
                  after.endpoints (new_row id status e db.tables.now) found
                  (rw (eq_refl e.project_id)
                    (load_endpoint-thrown lib (new_row id status e db.tables.now) after loaded)))),
    )
