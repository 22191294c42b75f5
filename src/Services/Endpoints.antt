-- ===== src/Services/Endpoints.antt =====
-- backend/application/endpoint_service.cpp.
pub mod Postgres
pub mod Access
use nexustal.Common.{Bool, true, false, Option, none, some, List, [], lit, Action, ◌>>=◌, pure}
use nexustal.Domain.Identity.{Uuid}
use nexustal.Domain.Capabilities.{
  view_endpoints, edit_endpoints, delete_endpoints, publish_endpoints,
}
use nexustal.Domain.Endpoint.{Endpoint}
use nexustal.Domain.Ports.{EndpointRepository}
use nexustal.Services.Roles.{RoleService, has_capability}

pub record EndpointService (S : Type 0) : Type 0 where
  pub repository : EndpointRepository S
  pub roles : RoleService S

abbrev pub revised : Uuid → Endpoint → Endpoint → Endpoint
revised endpoint_id current endpoint = record endpoint {
  id = endpoint_id;
  project_id = current.project_id;
  created_by = current.created_by;
  created_at = current.created_at;
}

-- What follows a look-up: an exception goes out, and nothing found gives a result at once.
abbrev pub on_found :
    {S A : Type 0}
    → Option (Option Endpoint)
    → A
    → (Endpoint → Action S (Option A))
    → Action S (Option A)
on_found none missing k = pure none
on_found (some none) missing k = pure (some missing)
on_found (some (some endpoint)) missing k = k endpoint

-- An exception of the repository goes out of each call: its result is then nothing.
module _ {S : Type 0} (service : EndpointService S) where
  open service use {repository, roles}

  unfoldable pub get_project_endpoints : Uuid → Uuid → Action S (Option (List Endpoint))
  get_project_endpoints project_id user_id = do
    allowed ← has_capability roles user_id project_id view_endpoints
    elim allowed [ false ↦ pure (some []) | true ↦ repository.find_by_project project_id ]

  unfoldable pub get_endpoint : Uuid → Uuid → Action S (Option (Option Endpoint))
  get_endpoint endpoint_id user_id = do
    found ← repository.find_by_id endpoint_id
    on_found found none λ endpoint. do
      allowed ← has_capability roles user_id endpoint.project_id view_endpoints
      elim allowed [ false ↦ pure (some none) | true ↦ pure (some (some endpoint)) ]

  unfoldable pub create_endpoint : Uuid → Endpoint → Uuid → Action S (Option Uuid)
  create_endpoint project_id endpoint user_id = do
    allowed ← has_capability roles user_id project_id edit_endpoints
    elim allowed [
      | false ↦ pure (some [])
      | true ↦ repository.create (record endpoint { project_id = project_id; created_by = user_id })
    ]

  unfoldable pub update_endpoint : Uuid → Endpoint → Uuid → Action S (Option Bool)
  update_endpoint endpoint_id endpoint user_id = do
    found ← repository.find_by_id endpoint_id
    on_found found false λ current. do
      allowed ← has_capability roles user_id current.project_id edit_endpoints
      elim allowed [
        | false ↦ pure (some false)
        | true ↦ repository.update (revised endpoint_id current endpoint)
      ]

  unfoldable pub delete_endpoint : Uuid → Uuid → Action S (Option Bool)
  delete_endpoint endpoint_id user_id = do
    found ← repository.find_by_id endpoint_id
    on_found found false λ current. do
      allowed ← has_capability roles user_id current.project_id delete_endpoints
      elim allowed [
        | false ↦ pure (some false)
        | true ↦ do removed ← repository.remove endpoint_id; pure (some removed)
      ]

  unfoldable pub publish_endpoint : Uuid → Uuid → Action S (Option Bool)
  publish_endpoint endpoint_id user_id = do
    found ← repository.find_by_id endpoint_id
    on_found found false λ current. do
      allowed ← has_capability roles user_id current.project_id publish_endpoints
      elim allowed [
        | false ↦ pure (some false)
        | true ↦ repository.update (record current { status = lit "published" })
      ]
