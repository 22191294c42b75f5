-- ===== src/Storage/Endpoints/Bounds/Calls.antt =====
-- What the calls of the endpoint repository leave within the bounds.
use nexustal.Storage.Users.{or_fresh}
use nexustal.Storage.Endpoints.Reads.{find_endpoint_by_id-Keeps}
use nexustal.Storage.Endpoints.Bounds.{
  delete_row-Bounded, insert_row-Bounded, delete_detail-Bounded, set_row-Bounded,
  insert_detail-Bounded, Bounded,
}
use nexustal.Domain.Endpoint.{Endpoint, EndpointDetails}
use nexustal.Storage.Attempts.Laws.{transaction-Keeps, exec-Keeps, >>=-Keeps, Keeps}
use nexustal.Storage.Details.{
  insert_detail, delete_detail, columns_for, insert_columns, insert_type_details,
}
use nexustal.Domain.Json.{JsonLib}
use nexustal.Storage.{Database, DetailColumns}
use nexustal.Storage.Endpoints.{
  delete_row, set_row, insert_row, revise, remove_endpoint_row, update_endpoint_row,
  create_endpoint_row, find_endpoint_by_id,
}
use nexustal.Domain.Identity.{Uuid}
use nexustal.Storage.Attempts.{call, attempt, Trial, ◌>>=◌, ◌>>◌, pure}
use nexustal.Common.{Bool, true, Option, none, some}

insert_columns-Bounded :
    (id : Uuid) (o : Option DetailColumns) → Keeps Bounded (insert_columns id o)
insert_columns-Bounded id none db h = h
insert_columns-Bounded id (some c) db h =
    exec-Keeps Bounded (insert_detail id c) (insert_detail-Bounded id c) db h

insert_type_details-Bounded :
    (lib : JsonLib) (id : Uuid) (d : EndpointDetails) → Keeps Bounded (insert_type_details lib id d)
unfolding insert_type_details
insert_type_details-Bounded lib id d = insert_columns-Bounded id (columns_for lib d)

revise-Bounded :
    (lib : JsonLib) (e : Endpoint) (o : Option Endpoint) → Keeps Bounded (revise lib e o)
revise-Bounded lib e none db h = h
revise-Bounded lib e (some existing) db h =
    let insert : Trial (Unit {0}) = insert_type_details lib e.id e.details in
    let delete : Trial (Unit {0}) = attempt (delete_detail existing.kind e.id) in
    >>=-Keeps Bounded (attempt (set_row e)) (λ _. delete >> (insert >> pure true))
      (exec-Keeps Bounded (set_row e) (set_row-Bounded e))
      (λ _.
        >>=-Keeps Bounded delete (λ _. insert >> pure true)
          (exec-Keeps Bounded (delete_detail existing.kind e.id)
            (delete_detail-Bounded existing.kind e.id))
          λ _.
            >>=-Keeps Bounded insert (λ _. pure true)
              (insert_type_details-Bounded lib e.id e.details) λ _ d k. k)
      db h

-- Creating, updating and removing endpoints keeps every stored status within 20 characters and
-- every stored operation within 255, whatever the server refuses and however an abandoned
-- transaction ends.
pub mutations-Bounded :
    (lib : JsonLib) (kept : Bool) (fresh : Uuid) (e : Endpoint) (id : Uuid) (db : Database)
    → Bounded db.tables
    → Bounded (create_endpoint_row lib kept fresh e db).1.tables
      × Bounded (update_endpoint_row lib kept e db).1.tables
      × Bounded (remove_endpoint_row id db).1.tables
unfolding create_endpoint_row update_endpoint_row remove_endpoint_row
mutations-Bounded lib kept fresh e id db h =
    let insert : Trial Uuid = attempt (insert_row (or_fresh fresh e.id) e) in
    let rest : Uuid → Trial Uuid =
      λ created. insert_type_details lib created e.details >>= λ _. pure created in
    let find : Trial (Option Endpoint) = call (find_endpoint_by_id lib e.id) in
    (
      transaction-Keeps Bounded kept (insert >>= rest)
          (>>=-Keeps Bounded insert rest
            (exec-Keeps Bounded (insert_row (or_fresh fresh e.id) e)
              (insert_row-Bounded (or_fresh fresh e.id) e))
            λ created.
              >>=-Keeps Bounded (insert_type_details lib created e.details) (λ _. pure created)
                (insert_type_details-Bounded lib created e.details) λ _ d k. k)
          db h,
      transaction-Keeps Bounded kept (find >>= revise lib e)
          (>>=-Keeps Bounded find (revise lib e) (find_endpoint_by_id-Keeps Bounded lib e.id)
            (revise-Bounded lib e))
          db h,
      exec-Keeps Bounded (delete_row id) (delete_row-Bounded id) db h,
    )
