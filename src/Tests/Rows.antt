-- ===== src/Tests/Rows.antt =====
-- A REST endpoint and global variables in the office's tables.
use nexustal.Storage.{exec}
use nexustal.Storage.Attempts.{transaction}
use nexustal.Storage.Endpoints.Bounds.Calls.{mutations-Bounded}
use nexustal.Storage.Endpoints.Unreadable.{create_endpoint_row-unreadable}
use nexustal.Storage.Endpoints.Creation.{create_endpoint_row-find, stored}
use nexustal.Storage.Environments.{set_global_variables}
use nexustal.Tests.Variables.{text_of-number, library}
use nexustal.Storage.Details.{
  fitted, insert_detail, stored_body, columns_for, insert_type_details, raw_of,
}
use nexustal.Storage.Endpoints.Bounds.{Bounded}
use nexustal.Storage.Environments.Laws.{set_global_variables-get, globals_read}
use nexustal.Domain.Environment.{GlobalVariables}
use nexustal.Storage.Columns.{varchar}
use nexustal.Storage.Endpoints.{
  remove_endpoint_row, find_endpoints_by_project, update_endpoint_row, insert_row,
  create_endpoint_row, find_endpoint_by_id,
}
use nexustal.Tests.Data.{office, alice, shop, first}
use nexustal.Storage.Details.Laws.{answering, Sound}
use nexustal.Domain.Json.{string, number, member, end, object, empty_object, Json, get}
use nexustal.Domain.Endpoint.{
  http_method_to_string, endpoint_type_to_string, default_rest, of_rest, Endpoint, rest,
}
use nexustal.Common.{
  ◌≡◌, refl, ◌≢◌, inl, true, false, ◌&&◌, none, some, [], ◌∷◌, arith, if◌then◌else◌, Text, lit,
  ◌==◌,
}

abbrev with_body : Json → Text → Endpoint
with_body body raw = record {
  id = [];
  project_id = shop;
  name = empty_object;
  description = empty_object;
  kind = rest;
  status = lit "draft";
  created_by = alice;
  created_at = 0;
  updated_at = 0;
  details = of_rest (record default_rest { body = body; body_raw = raw });
  tag_ids = [];
}

-- An endpoint with a raw body, and one whose body has a number under `raw`.
abbrev search_page : Endpoint
search_page = with_body empty_object (lit "q")

abbrev broken : Endpoint
broken = with_body (object (member (lit "raw") (number (lit "5")) end)) []

created : (create_endpoint_row library false first search_page (answering office)).0 ≡ some first
unfolding create_endpoint_row insert_row insert_type_details columns_for stored_body insert_detail
    fitted transaction varchar lit ◌==◌ endpoint_type_to_string http_method_to_string exec
created = rw (library.assign_object (lit "raw") (string (lit "q")) end) refl

readable : Sound library search_page.details
unfolding lit
readable = inl (refl, end, refl)

first_named : first ≢ []
first_named h = ground arith

create_endpoint_row-find_example :
    (status : Text) × (varchar 20 (lit "draft") ≡ some status)
    × ((find_endpoint_by_id library first (
          answering
            (create_endpoint_row library false first search_page (answering office)).1.tables)).0
        ≡ some (some (stored library first status 7 search_page)))
create_endpoint_row-find_example =
    create_endpoint_row-find library false first search_page (answering office) first refl readable
      first_named created

broken_created : (create_endpoint_row library false first broken (answering office)).0 ≡ some first
unfolding create_endpoint_row insert_row insert_type_details columns_for stored_body insert_detail
    fitted transaction varchar lit ◌==◌ endpoint_type_to_string http_method_to_string exec
broken_created = refl

unreadable : raw_of library (object (member (lit "raw") (number (lit "5")) end)) ≡ none
unfolding raw_of get lit ◌==◌
unreadable = text_of-number (lit "5")

create_endpoint_row-unreadable_example :
    ((find_endpoint_by_id library first
        (answering (create_endpoint_row library false first broken (answering office)).1.tables)).0
      ≡ none)
    × ((find_endpoints_by_project library shop (
          answering (create_endpoint_row library false first broken (answering office)).1.tables)).0
        ≡ none)
create_endpoint_row-unreadable_example =
    create_endpoint_row-unreadable library false first broken
      (record default_rest { body = object (member (lit "raw") (number (lit "5")) end) })
      (answering office) first refl refl refl unreadable first_named broken_created

mutations-Bounded_example :
    Bounded (create_endpoint_row library true first search_page (answering office)).1.tables
    × Bounded (update_endpoint_row library true search_page (answering office)).1.tables
    × Bounded (remove_endpoint_row first (answering office)).1.tables
mutations-Bounded_example =
    mutations-Bounded library true first search_page first (answering office) (tt, tt)

abbrev shop_globals : GlobalVariables
shop_globals = record {
  project_id = shop;
  variables =
      record { key = lit "host"; value = lit "localhost"; secret = false; description = [] } ∷ [];
}

set_global_variables-get_example :
    globals_read library shop
      (set_global_variables library shop_globals (answering office)).1.tables
    ≡ (if (set_global_variables library shop_globals (answering office)).0 && shop == shop
        then some shop_globals
        else globals_read library shop office)
set_global_variables-get_example =
    set_global_variables-get library shop_globals shop (answering office)
