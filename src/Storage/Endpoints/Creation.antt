-- ===== src/Storage/Endpoints/Creation.antt =====
-- Creating an endpoint and looking it up.
use nexustal.Domain.Endpoint.Laws.{endpoint_type_from_string-to_string}
use nexustal.Storage.Columns.{varchar}
use nexustal.Storage.Details.Laws.{columns-Stands, answering, Sound, type_of, as_read}
use nexustal.Storage.{Database}
use nexustal.Domain.Endpoint.{Endpoint}
use nexustal.Storage.Endpoints.Laws.{
  find_endpoint_by_id-found, create_endpoint_row-Created, found_as,
}
use nexustal.Domain.Identity.{Timestamp, Uuid}
use nexustal.Domain.Json.{JsonLib}
use nexustal.Storage.Endpoints.{
  new_row, find_endpoint_by_id, create_endpoint_row, map_base_endpoint,
}
use nexustal.Common.{◌≡◌, ap, ◌∙◌, ◌≢◌, Bool, some, [], Text}

abbrev pub stored : JsonLib → Uuid → Text → Timestamp → Endpoint → Endpoint
stored lib id status now e = record e {
  id = id;
  status = status;
  created_at = now;
  updated_at = now;
  details = as_read lib e.details;
  tag_ids = [];
}

-- If creating an endpoint gives an identifier, the status fits its column, and the look-up of the
-- identifier afterwards, while the server answers, finds the endpoint with the status as stored,
-- the server's time, no tags, and in a REST body the member that holds the raw body. The details
-- have to be of the endpoint's type and readable (a body that is an object if there is a raw body,
-- and else without a raw body of its own; an operation of at most 255 characters).
pub create_endpoint_row-find :
    (lib : JsonLib) (kept : Bool) (fresh : Uuid) (e : Endpoint) (db : Database) (id : Uuid)
    → e.kind ≡ type_of e.details
    → Sound lib e.details
    → id ≢ []
    → (create_endpoint_row lib kept fresh e db).0 ≡ some id
    → (status : Text) × (varchar 20 e.status ≡ some status)
      × ((find_endpoint_by_id lib id
            (answering (create_endpoint_row lib kept fresh e db).1.tables)).0
          ≡ some (some (stored lib id status db.tables.now e)))
unfolding map_base_endpoint found_as
create_endpoint_row-find lib kept fresh e db id coherent sound named created =
    let (c, stands) = columns-Stands lib e.details sound in
    let (status, (fits, found, loaded)) =
      create_endpoint_row-Created lib kept fresh e db id coherent named created
        (some (as_read lib e.details)) c stands in
    (
      status,
      fits,
      find_endpoint_by_id-found lib id (new_row id status e db.tables.now)
            (some (as_read lib e.details)) _ found loaded
          ∙ ap (λ k. some (some (record (stored lib id status db.tables.now e) { kind = k })))
              (endpoint_type_from_string-to_string e.kind),
    )
