-- ===== src/Storage/Endpoints/Bounds.antt =====
-- The bounds of the columns of endpoints and details, and the statements that meet them.
pub mod Calls
use nexustal.Storage.Columns.{varchar-characters, characters, varchar}
use nexustal.Domain.Identity.{Timestamp, Uuid}
use nexustal.Storage.Details.{
  table_of, has_endpoint, is_detail, fitted, insert_detail, delete_detail,
}
use nexustal.Storage.{
  soap_columns, websocket_columns, graphql_columns, rest_columns, Tables, EndpointRow, DetailRow,
  DetailColumns,
}
use nexustal.Storage.Endpoints.{
  with_revision, with_row, revise_row, allowed_type, row_allowed, delete_row, insert_row, set_row,
}
use nexustal.Domain.Endpoint.{endpoint_type_to_string, EndpointType, Endpoint}
use nexustal.Storage.Attempts.{◌>>=◌, ◌>>◌, pure, returned, done}
use mathlib.Core.Option
use nexustal.Common.{
  ℕ, zero, suc, ◌+◌, ◌-◌, ◌*◌, ◌/◌, ◌%◌, ◌^◌, ◌≤◌, ◌<◌, String, ◌≡◌, refl, sym, ap, ◌∙◌, subst, ◌≢◌,
  ◌↔◌, ◌⊎◌, inl, inr, Bool, true, false, not, ◌&&◌, ◌||◌, Option, none, some, List, [], ◌∷◌, ◌++◌,
  append_assoc, append-nil, arith, ltb, leb, eqb, if◌then◌else◌, Bool-cases, Option-cases, is_some,
  Text, lit, ◌==◌, is_empty, eq_iff, eq_refl, ==-false, length, length-append, find_if, get_elem?,
  modify, take-length, drop-length, take, drop, drop-zero, take-append, drop-append, update_where,
  count_if, count_if-pos, find_if-any, find_if-holds, insert_desc, order_desc, any-insert_desc,
  any-order_desc, All-insert_desc, All-order_desc, find_if-All, any-select, any-false, any_mono,
  any-append, All-append, All-select_self, find_if_unique, any, select, All, All-select, Dict,
  lookup, put, without, lookup-put, lookup-without, Action,
}

abbrev fits_columns : DetailColumns → ℕ
fits_columns (rest_columns _ _ _ _ _) = 0
fits_columns (graphql_columns _ _ _) = 0
fits_columns (soap_columns _ operation _) = characters operation
fits_columns (websocket_columns _ _ _) = 0

abbrev RowBounded : EndpointRow → Type 0
RowBounded r = characters r.status ≤ 20

abbrev DetailBounded : DetailRow → Type 0
DetailBounded d = fits_columns d.columns ≤ 255

-- Every status has at most 20 characters, and every operation at most 255.
abbrev pub Bounded : Tables → Type 0
Bounded t = All RowBounded t.endpoints × All DetailBounded t.details

pub insert_row-Bounded :
    (id : Uuid) (e : Endpoint) (t t' : Tables) (a : Uuid)
    → Bounded t
    → insert_row id e t ≡ some (a, t')
    → Bounded t'
unfolding insert_row
insert_row-Bounded id e t t' a (rows, details) h = elim (Option-cases (varchar 20 e.status)) [
  | inl long ↦ ground (arith, long)
  | inr (status, fits) ↦ elim (Bool-cases (row_allowed id e t)) [
    | inr refusal ↦ ground (arith, fits, refusal)
    | inl ok ↦
        let same : with_row id status e t ≡ t' = ground (arith, fits, ok) in
        subst Bounded same (
          All-append RowBounded t.endpoints _ rows (varchar-characters 20 e.status status fits, tt),
          details,
        )
  ]
]

revised-Bounded :
    (status : Text) (e : Endpoint) (now : Timestamp) (rows : List EndpointRow)
    → characters status ≤ 20
    → All RowBounded rows
    → All RowBounded (update_where (λ r. r.id == e.id) (revise_row now status e) rows)
revised-Bounded status e now [] k h = tt
revised-Bounded status e now (r ∷ rows) k h = elim (Bool-cases (r.id == e.id)) [
  | inl hit ↦ (rw hit k, revised-Bounded status e now rows k h.1)
  | inr miss ↦ (rw miss h.0, revised-Bounded status e now rows k h.1)
]

pub set_row-Bounded :
    (e : Endpoint) (t t' : Tables) (a : Unit {0})
    → Bounded t
    → set_row e t ≡ some (a, t')
    → Bounded t'
unfolding set_row
set_row-Bounded e t t' a (rows, details) h = elim (Option-cases (varchar 20 e.status)) [
  | inl long ↦ ground (arith, long)
  | inr (status, fits) ↦ elim (Bool-cases (allowed_type (endpoint_type_to_string e.kind))) [
    | inr refusal ↦ ground (arith, fits, refusal)
    | inl ok ↦
        let same : with_revision status e t ≡ t' = ground (arith, fits, ok) in
        subst Bounded same (
          revised-Bounded status e t.now t.endpoints (varchar-characters 20 e.status status fits)
              rows,
          details,
        )
  ]
]

fitted-Bounded : (c c' : DetailColumns) → fitted c ≡ some c' → fits_columns c' ≤ 255
unfolding fitted
fitted-Bounded (rest_columns m u q hs b) c' h =
    subst (λ x. fits_columns x ≤ 255)
      (let same : rest_columns m u q hs b ≡ c' = ground arith in same) (omega arith)
fitted-Bounded (graphql_columns q v u) c' h =
    subst (λ x. fits_columns x ≤ 255) (let same : graphql_columns q v u ≡ c' = ground arith in same)
      (omega arith)
fitted-Bounded (websocket_columns u p s) c' h =
    subst (λ x. fits_columns x ≤ 255)
      (let same : websocket_columns u p s ≡ c' = ground arith in same) (omega arith)
fitted-Bounded (soap_columns w o x) c' h = elim (Option-cases (varchar 255 o)) [
  | inl long ↦ ground (arith, long)
  | inr (s, fits) ↦
      let same : soap_columns w s x ≡ c' = ground (arith, fits) in
      subst (λ y. fits_columns y ≤ 255) same (varchar-characters 255 o s fits)
]

pub insert_detail-Bounded :
    (id : Uuid) (c : DetailColumns) (t t' : Tables) (a : Unit {0})
    → Bounded t
    → insert_detail id c t ≡ some (a, t')
    → Bounded t'
unfolding insert_detail
insert_detail-Bounded id c t t' a (rows, details) h = elim (Option-cases (fitted c)) [
  | inl long ↦ ground (arith, long)
  | inr (c', fits) ↦
      elim (Bool-cases (has_endpoint t id && not (any (is_detail (table_of c') id) t.details))) [
        | inr refusal ↦ ground (arith, fits, refusal)
        | inl ok ↦
            let same : record t {
              details = t.details ++ record { endpoint_id = id; columns = c' } ∷ [];
            }
                ≡ t' =
              ground (arith, fits, ok) in
            subst Bounded same
              (rows, All-append DetailBounded t.details _ details (fitted-Bounded c c' fits, tt))
      ]
]

pub delete_detail-Bounded :
    (kind : EndpointType) (id : Uuid) (t t' : Tables) (a : Unit {0})
    → Bounded t
    → delete_detail kind id t ≡ some (a, t')
    → Bounded t'
unfolding delete_detail
delete_detail-Bounded kind id t t' a (rows, details) h =
    let same : record t { details = select (λ d. not (is_detail kind id d)) t.details } ≡ t' =
      ground arith in
    subst Bounded same (rows, All-select DetailBounded _ t.details details)

pub delete_row-Bounded :
    (id : Uuid) (t t' : Tables) (a : ℕ) → Bounded t → delete_row id t ≡ some (a, t') → Bounded t'
unfolding delete_row
delete_row-Bounded id t t' a (rows, details) h =
    let same : record t {
      endpoints = select (λ r. not (r.id == id)) t.endpoints;
      details = select (λ d. not (d.endpoint_id == id)) t.details;
    }
        ≡ t' =
      ground arith in
    subst Bounded same
      (All-select RowBounded _ t.endpoints rows, All-select DetailBounded _ t.details details)
