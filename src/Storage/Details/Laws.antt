-- ===== src/Storage/Details/Laws.antt =====
-- What is written to the tables of details is read back.
use nexustal.Domain.Endpoint.Laws.{http_method_from_string-to_string}
use nexustal.Storage.Attempts.Laws.{attempt-done}
use nexustal.Storage.Columns.{characters, varchar-short}
use nexustal.Storage.{rest_columns, exec, DetailColumns, Database, Tables}
use nexustal.Domain.Identity.{Uuid}
use nexustal.Domain.Endpoint.{
  websocket, http_method_to_string, of_websocket, soap, of_soap, RestDetails, graphql, rest,
  of_graphql, of_rest, EndpointType, EndpointDetails,
}
use nexustal.Storage.Details.{
  has_endpoint, stored_body, table_of, is_detail, select_detail, insert_columns, insert_fitted,
  read_columns, same_type, fitted, load_details, insert_type_details, columns_for, insert_detail,
  raw_of,
}
use nexustal.Domain.Json.{null, array, number, string, boolean, object, Json, Members, JsonLib}
use nexustal.Storage.Attempts.{returned, done}
use nexustal.Common.{
  ◌≤◌, ◌≡◌, refl, sym, ap, subst, ◌⊎◌, inl, inr, Bool, true, false, not, ◌&&◌, Option, none, some,
  List, [], ◌∷◌, ◌++◌, arith, if◌then◌else◌, Bool-cases, Text, lit, is_empty, eq_refl, find_if, any,
}

-- The details that a row holds, with the name of the raw body written out.
abbrev with_raw : JsonLib → Text → Json → Json
with_raw lib raw (object m) =
    if is_empty raw then object m else object (lib.put (lit "raw") (string raw) m)
with_raw lib raw null = null
with_raw lib raw (boolean b) = boolean b
with_raw lib raw (number n) = number n
with_raw lib raw (string s) = string s
with_raw lib raw (array vs) = array vs

abbrev pub as_read : JsonLib → EndpointDetails → EndpointDetails
as_read lib (of_rest d) = of_rest (record d { body = with_raw lib d.body_raw d.body })
as_read lib (of_graphql d) = of_graphql d
as_read lib (of_soap d) = of_soap d
as_read lib (of_websocket d) = of_websocket d

-- Details that come back: the body of a REST endpoint is an object if there is a raw body, and
-- names no other raw body if there is none; the operation fits its column.
abbrev pub Sound : JsonLib → EndpointDetails → Type 0
Sound lib (of_rest d) =
    ((is_empty d.body_raw ≡ false) × (m : Members) × (d.body ≡ object m))
    ⊎ ((d.body_raw ≡ []) × (raw_of lib d.body ≡ some []))
Sound lib (of_graphql d) = Unit
Sound lib (of_soap d) = characters d.operation ≤ 255
Sound lib (of_websocket d) = Unit

abbrev pub type_of : EndpointDetails → EndpointType
type_of (of_rest d) = rest
type_of (of_graphql d) = graphql
type_of (of_soap d) = soap
type_of (of_websocket d) = websocket

with_raw-empty : (lib : JsonLib) (v : Json) → with_raw lib [] v ≡ v
with_raw-empty lib null = refl
with_raw-empty lib (boolean b) = refl
with_raw-empty lib (number n) = refl
with_raw-empty lib (string s) = refl
with_raw-empty lib (array vs) = refl
with_raw-empty lib (object m) = refl

-- The columns that stand for details, and what they are read as.
abbrev pub Stands : JsonLib → EndpointDetails → Option EndpointDetails → DetailColumns → Type 0
Stands lib details result c =
    (columns_for lib details ≡ some c)
    × (fitted c ≡ some c)
    × (read_columns lib c ≡ result)
    × (table_of c ≡ type_of details)

raw_of-put :
    (lib : JsonLib) (raw : Text) (m : Members)
    → raw_of lib (object (lib.put (lit "raw") (string raw) m)) ≡ some raw
unfolding raw_of
raw_of-put lib raw m =
    rw
      (
        lib.get-put (lit "raw") (lit "raw") (string raw) m,
        eq_refl (lit "raw"),
        lib.text_of_string raw,
      )
      refl

rest-Stands :
    (lib : JsonLib) (d : RestDetails) (body : Json)
    → stored_body lib d ≡ some body
    → raw_of lib body ≡ some d.body_raw
    → with_raw lib d.body_raw d.body ≡ body
    → (c : DetailColumns) × Stands lib (of_rest d) (some (as_read lib (of_rest d))) c
unfolding columns_for fitted read_columns
rest-Stands lib d body stored reads same = (
  rest_columns (http_method_to_string d.method) d.url_path d.query_params d.headers body,
  (
    rw stored refl,
    refl,
    rw (reads, http_method_from_string-to_string d.method)
        (ap (λ b. some (of_rest (record d { body = b }))) (sym same)),
    refl,
  ),
)

pub columns-Stands :
    (lib : JsonLib) (details : EndpointDetails)
    → Sound lib details
    → (c : DetailColumns) × Stands lib details (some (as_read lib details)) c
unfolding columns_for fitted read_columns stored_body raw_of
columns-Stands lib (of_rest d) (inl (raw, m, b)) =
    rest-Stands lib d (object (lib.put (lit "raw") (string d.body_raw) m))
      (rw (raw, b) (lib.assign_object (lit "raw") (string d.body_raw) m))
      (raw_of-put lib d.body_raw m) (rw (b, raw) refl)
columns-Stands lib (of_rest d) (inr (no_raw, read)) =
    rest-Stands lib d d.body (rw no_raw refl) (rw no_raw read)
      (rw no_raw (with_raw-empty lib d.body))
columns-Stands lib (of_graphql d) h = (_, (refl, refl, refl, refl))
columns-Stands lib (of_soap d) h =
    (_, (refl, rw (varchar-short 255 d.operation h) refl, refl, refl))
columns-Stands lib (of_websocket d) h =
    (_, (refl, refl, rw (lib.texts_of-of_texts d.protocols) refl, refl))

pub find_if-last :
    {A : Type 0} (p : A → Bool) (y : A) (xs : List A)
    → any p xs ≡ false
    → p y ≡ true
    → find_if p (xs ++ y ∷ []) ≡ some y
find_if-last p y [] h k = rw k refl
find_if-last p y (x ∷ xs) h k = ground (arith, find_if-last p y xs)

same_type_refl : (kind : EndpointType) → same_type kind kind ≡ true
same_type_refl rest = refl
same_type_refl graphql = refl
same_type_refl soap = refl
same_type_refl websocket = refl

abbrev with_detail : Uuid → DetailColumns → Tables → Tables
with_detail id c t = record t {
  details = t.details ++ record { endpoint_id = id; columns = c } ∷ [];
}

abbrev Kept : Uuid → DetailColumns → Tables → Tables → Type 0
Kept id c t t' =
    (find_if (is_detail (table_of c) id) t'.details
      ≡ some (record { endpoint_id = id; columns = c }))
    × (t'.endpoints ≡ t.endpoints)

insert_fitted-Kept :
    (id : Uuid) (c : DetailColumns) (t t' : Tables)
    → insert_fitted id (some c) t ≡ some (tt, t')
    → Kept id c t t'
insert_fitted-Kept id c t t' h =
    elim (Bool-cases (has_endpoint t id && not (any (is_detail (table_of c) id) t.details))) [
      | inr refusal ↦ ground (arith, refusal)
      | inl ok ↦
          let same : with_detail id c t ≡ t' = ground (arith, ok) in
          subst (Kept id c t) same (
            find_if-last (is_detail (table_of c) id) _ t.details (ground arith)
                (rw (eq_refl id, same_type_refl (table_of c)) refl),
            refl,
          )
    ]

abbrev pub answering : Tables → Database
answering t = record { tables = t; outages = [] }

-- The details are read from the tables `t'` as the result, and the endpoints are those of `t`.
abbrev pub Loads : JsonLib → Uuid → EndpointType → Option EndpointDetails → Tables → Tables → Type 0
Loads lib id kind result t t' =
    ((load_details lib id kind (answering t')).0 ≡ returned result) × (t'.endpoints ≡ t.endpoints)

columns-Loads :
    (lib : JsonLib) (id : Uuid) (details : EndpointDetails) (result : Option EndpointDetails)
    (c : DetailColumns) (db : Database)
    → Stands lib details result c
    → (insert_columns id (some c) db).0 ≡ done tt
    → Loads lib id (type_of details) result db.tables (insert_columns id (some c) db).1.tables
unfolding insert_detail load_details select_detail exec
columns-Loads lib id details result c db (written, fits, read, table) h =
    let stored = attempt-done (insert_detail id c) db tt h in
    let (found, same) = insert_fitted-Kept id c db.tables (insert_columns id (some c) db).1.tables (
      subst
        (λ o. insert_fitted id o db.tables ≡ some (tt, (insert_columns id (some c) db).1.tables))
        fits stored) in
    subst (λ kind. Loads lib id kind result db.tables (insert_columns id (some c) db).1.tables)
      table (rw found (rw read refl), same)

-- Details that were written are read back, and the endpoints stay.
pub insert_type_details-Loads :
    (lib : JsonLib) (id : Uuid) (details : EndpointDetails) (result : Option EndpointDetails)
    (c : DetailColumns) (db : Database)
    → Stands lib details result c
    → (insert_type_details lib id details db).0 ≡ done tt
    → Loads lib id
        (type_of details)
        result
        db.tables
        (insert_type_details lib id details db).1.tables
unfolding insert_type_details
insert_type_details-Loads lib id details result c db stands h =
    subst
      (λ o.
        (insert_columns id o db).0 ≡ done tt
        → Loads lib id (type_of details) result db.tables (insert_columns id o db).1.tables)
      (sym stands.0) (columns-Loads lib id details result c db stands) h

-- A REST body that names a raw body that is no text.
pub unreadable-Stands :
    (lib : JsonLib) (d : RestDetails)
    → d.body_raw ≡ []
    → raw_of lib d.body ≡ none
    → (c : DetailColumns) × Stands lib (of_rest d) none c
unfolding columns_for fitted read_columns stored_body
unreadable-Stands lib d empty unreadable = (
  rest_columns (http_method_to_string d.method) d.url_path d.query_params d.headers d.body,
  (rw empty refl, refl, rw unreadable refl, refl),
)
