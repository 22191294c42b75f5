-- ===== src/Storage/Endpoints/Laws.antt =====
-- What is stored of a created endpoint.
use nexustal.Domain.Endpoint.Laws.{endpoint_type_from_string-to_string}
use nexustal.Storage.Attempts.Laws.{attempt-done, >>=-done, transaction-committed}
use nexustal.Storage.Users.{or_fresh}
use nexustal.Storage.Details.Laws.{
  insert_type_details-Loads, find_if-last, Stands, answering, type_of,
}
use nexustal.Storage.Columns.{varchar}
use nexustal.Domain.Endpoint.{
  endpoint_type_to_string, endpoint_type_from_string, Endpoint, EndpointDetails,
}
use nexustal.Storage.{DetailColumns, exec, Tables, Database, EndpointRow}
use nexustal.Domain.Json.{JsonLib}
use nexustal.Storage.Endpoints.{
  with_row, create_endpoint_row, new_row, row_allowed, load_endpoint, map_base_endpoint,
  select_endpoint, find_endpoint, find_endpoint_by_id, insert_row,
}
use nexustal.Domain.Identity.{Timestamp, Uuid}
use nexustal.Storage.Attempts.{transaction, rescue, Trial, attempt, ◌>>=◌, pure, returned}
use nexustal.Storage.Details.{insert_type_details, has_endpoint, load_details}
use nexustal.Common.{
  ◌≡◌, refl, sym, ap, ◌∙◌, subst, ◌≢◌, inl, inr, Bool, false, Option, none, some, [], arith,
  Bool-cases, Option-cases, Text, ◌==◌, eq_refl, find_if,
}

abbrev RowFound : Uuid → Endpoint → Tables → Uuid → Tables → Text → Type 0
RowFound id e t a t' status =
    (varchar 20 e.status ≡ some status)
    × (a ≡ id)
    × (find_if (λ r. r.id == id) t'.endpoints ≡ some (new_row id status e t.now))

insert_row-found :
    (id a : Uuid) (e : Endpoint) (t t' : Tables)
    → insert_row id e t ≡ some (a, t')
    → (status : Text) × RowFound id e t a t' status
unfolding insert_row
insert_row-found id a e t t' h = elim (Option-cases (varchar 20 e.status)) [
  | inl long ↦ ground (arith, long)
  | inr (status, fits) ↦ elim (Bool-cases (row_allowed id e t)) [
    | inr refusal ↦ ground (arith, fits, refusal)
    | inl ok ↦
        let same_id : a ≡ id = ground (arith, fits, ok) in
        let same : with_row id status e t ≡ t' = ground (arith, fits, ok) in
        let absent : has_endpoint t id ≡ false = ground (arith, ok) in
        (
          status,
          (
            fits,
            same_id,
            subst (λ x. find_if (λ r. r.id == id) x.endpoints ≡ some (new_row id status e t.now))
                same (find_if-last (λ r. r.id == id) _ t.endpoints absent (eq_refl id)),
          ),
        )
  ]
]

-- The look-up of a row whose details are read, or whose details throw.
unfoldable pub found_as : EndpointRow → Option EndpointDetails → Option (Option Endpoint)
found_as row none = none
found_as row (some d) = some (some (record (map_base_endpoint row) { details = d }))

pub find_endpoint_by_id-found :
    (lib : JsonLib) (id : Uuid) (row : EndpointRow) (result : Option EndpointDetails) (t : Tables)
    → find_if (λ r. r.id == id) t.endpoints ≡ some row
    → (load_details lib row.id (endpoint_type_from_string row.kind) (answering t)).0
      ≡ returned result
    → (find_endpoint_by_id lib id (answering t)).0 ≡ found_as row result
unfolding found_as find_endpoint_by_id find_endpoint select_endpoint load_endpoint map_base_endpoint
    exec
find_endpoint_by_id-found lib id row (some d) t found loaded = rw (found, loaded) refl
find_endpoint_by_id-found lib id row none t found loaded = rw (found, loaded) refl

-- A created endpoint has a row, and its details are read as the result.
abbrev pub Created :
    JsonLib → Endpoint → Option EndpointDetails → Timestamp → Uuid → Tables → Text → Type 0
Created lib e result now id t status =
    (varchar 20 e.status ≡ some status)
    × (find_if (λ r. r.id == id) t.endpoints ≡ some (new_row id status e now))
    × ((load_details lib id (endpoint_type_from_string (endpoint_type_to_string e.kind))
          (answering t)).0
        ≡ returned result)

module _ (lib : JsonLib) (kept : Bool) (fresh : Uuid) (e : Endpoint) (db : Database) (id : Uuid)
    (coherent : e.kind ≡ type_of e.details) (named : id ≢ [])
    (created : (create_endpoint_row lib kept fresh e db).0 ≡ some id) where
  pub create_endpoint_row-Created :
      (result : Option EndpointDetails) (c : DetailColumns)
      → Stands lib e.details result c
      → (status : Text) × Created lib e result db.tables.now id
          (create_endpoint_row lib kept fresh e db).1.tables
          status
  unfolding create_endpoint_row
  create_endpoint_row-Created result c stands =
      let chosen = or_fresh fresh e.id in
      let insert = attempt (insert_row chosen e) in
      let rest : Uuid → Trial Uuid =
        λ made. insert_type_details lib made e.details >>= λ _. pure made in
      let (inner, committed) =
        transaction-committed kept [] id (insert >>= rest) db named created in
      let (a, inserted, detailed, after) = >>=-done insert rest db id inner in
      let (u, written, last, finish) =
        >>=-done (insert_type_details lib a e.details) (λ _. pure a) (insert db).1 id detailed in
      let (status, (fits, same_id, found)) =
        insert_row-found chosen a e db.tables (insert db).1.tables
          (attempt-done (insert_row chosen e) db a inserted) in
      let (loaded, same) =
        insert_type_details-Loads lib a e.details result c (insert db).1 stands written in
      let final : (rescue [] (transaction kept (insert >>= rest)) db).1.tables
          ≡ (insert_type_details lib a e.details (insert db).1).1.tables =
        ap (λ x. x.tables) (committed ∙ ap (λ x. x.1) (after ∙ finish)) in
      let kind : type_of e.details ≡ endpoint_type_from_string (endpoint_type_to_string e.kind) =
        sym (endpoint_type_from_string-to_string e.kind ∙ coherent) in
      let detailed_as =
        subst
          (λ k.
            (load_details lib chosen k
              (answering (insert_type_details lib a e.details (insert db).1).1.tables)).0
            ≡ returned result)
          kind
          (subst
            (λ i.
              (load_details lib i (type_of e.details)
                (answering (insert_type_details lib a e.details (insert db).1).1.tables)).0
              ≡ returned result)
            same_id loaded) in
      let here : Created lib e result db.tables.now chosen
          (insert_type_details lib a e.details (insert db).1).1.tables status =
        (fits, rw same found, detailed_as) in
      (
        status,
        subst (λ t. Created lib e result db.tables.now id t status) (sym final)
            (subst
              (λ i.
                Created lib e result db.tables.now i
                  (insert_type_details lib a e.details (insert db).1).1.tables status)
              (sym same_id ∙ ground (arith, last)) here),
      )
