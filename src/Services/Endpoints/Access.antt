-- ===== src/Services/Endpoints/Access.antt =====
-- Who may change which endpoint. The repository and the roles are taken behind an interface: what
-- a state says of each endpoint's project, creator and status, and of each user's role, and how
-- the calls of the service read and change that.
use nexustal.Common.{
  refl, ◌⊎◌, true, ◌≡◌, ◌∙◌, inl, inr, Bool, false, Option, none, some, arith, Option-cases, Text,
}
use nexustal.Domain.Identity.{Uuid, UserRole}
use nexustal.Domain.Capabilities.{
  Capability, view_endpoints, edit_endpoints, delete_endpoints, publish_endpoints,
}
use nexustal.Domain.Endpoint.{Endpoint}
use nexustal.Services.Roles.{get_project_role, has_capability, allows}
use nexustal.Services.Endpoints.{
  EndpointService, get_project_endpoints, get_endpoint, create_endpoint, update_endpoint,
  delete_endpoint, publish_endpoint,
}

pub record Summary : Type 0 where
  pub project_id : Uuid
  pub created_by : Uuid
  pub status : Text

abbrev pub summary_of : Endpoint → Summary
summary_of e = record { project_id = e.project_id; created_by = e.created_by; status = e.status }

abbrev pub is_true : Option Bool → Bool
is_true none = false
is_true (some b) = b

abbrev pub with_status : Text → Option Summary → Option Summary
with_status status none = none
with_status status (some s) = some (record s { status = status })

-- `T` is all that is stored; a result that is an exception or a refusal says nothing of it.
pub record Access (S T : Type 0) (service : EndpointService S) : Type 0 where
  pub content : S → T
  pub summary : T → Uuid → Option Summary
  pub role_at : T → Uuid → Uuid → Option UserRole
  pub role_read :
      (user_id project_id : Uuid) (w : S) (r : UserRole)
      → (get_project_role service.roles user_id project_id w).0 ≡ some r
      → role_at (content w) user_id project_id ≡ some r
  pub role_read_keeps :
      (user_id project_id : Uuid) (w : S)
      → content (get_project_role service.roles user_id project_id w).1 ≡ content w
  pub find_reads :
      (id : Uuid) (w : S) (e : Endpoint)
      → (service.repository.find_by_id id w).0 ≡ some (some e)
      → (summary (content w) id ≡ some (summary_of e)) × (e.id ≡ id)
  pub find_keeps : (id : Uuid) (w : S) → content (service.repository.find_by_id id w).1 ≡ content w
  pub list_keeps :
      (project_id : Uuid) (w : S)
      → content (service.repository.find_by_project project_id w).1 ≡ content w

-- The calls of the service.
pub data Call : Type 0 where
  listing : Uuid → Call
  getting : Uuid → Call
  creating : Uuid → Endpoint → Call
  updating : Uuid → Endpoint → Call
  deleting : Uuid → Call
  publishing : Uuid → Call

abbrev pub required : Call → Capability
required (listing _) = view_endpoints
required (getting _) = view_endpoints
required (creating _ _) = edit_endpoints
required (updating _ _) = edit_endpoints
required (deleting _) = delete_endpoints
required (publishing _) = publish_endpoints

module _ {S : Type 0} (service : EndpointService S) where
  unfoldable pub perform : Uuid → Call → S → S
  perform user_id (listing project_id) w = (get_project_endpoints service project_id user_id w).1
  perform user_id (getting id) w = (get_endpoint service id user_id w).1
  perform user_id (creating project_id e) w = (create_endpoint service project_id e user_id w).1
  perform user_id (updating id e) w = (update_endpoint service id e user_id w).1
  perform user_id (deleting id) w = (delete_endpoint service id user_id w).1
  perform user_id (publishing id) w = (publish_endpoint service id user_id w).1

abbrev pub is_found : {A : Type 0} → Option (Option A) → Bool
is_found none = false
is_found (some none) = false
is_found (some (some a)) = true

pub Found-cases :
    {A : Type 0} (o : Option (Option A)) → (is_found o ≡ false) ⊎ ((a : A) × (o ≡ some (some a)))
Found-cases none = inl refl
Found-cases (some none) = inl refl
Found-cases (some (some a)) = inr (a, refl)

module _ {S T : Type 0} {service : EndpointService S} (access : Access S T service) where
  open access use {content, summary, role_at}

  abbrev pub project_of_summary : Option Summary → Option Uuid
  project_of_summary none = none
  project_of_summary (some s) = some s.project_id

  -- The project that a call is about.
  abbrev pub project_of : Call → S → Option Uuid
  project_of (listing project_id) w = some project_id
  project_of (creating project_id _) w = some project_id
  project_of (getting id) w = project_of_summary (summary (content w) id)
  project_of (updating id _) w = project_of_summary (summary (content w) id)
  project_of (deleting id) w = project_of_summary (summary (content w) id)
  project_of (publishing id) w = project_of_summary (summary (content w) id)

  abbrev pub may : Uuid → Call → S → Option Uuid → Bool
  may user_id call w none = false
  may user_id call w (some project_id) =
      allows (required call) (role_at (content w) user_id project_id)

  -- A capability is granted only by the stored role.
  capability_read :
      (user_id project_id : Uuid) (c : Capability) (w : S)
      → (has_capability service.roles user_id project_id c w).0 ≡ true
      → allows c (role_at (content w) user_id project_id) ≡ true
  unfolding has_capability
  capability_read user_id project_id c w h =
      elim (Option-cases (get_project_role service.roles user_id project_id w).0) [
        | inl missing ↦ ground (arith, missing)
        | inr (r, e) ↦ ground (arith, e, access.role_read user_id project_id w r)
      ]

  capability_keeps :
      (user_id project_id : Uuid) (c : Capability) (w : S)
      → content (has_capability service.roles user_id project_id c w).1 ≡ content w
  unfolding has_capability
  capability_keeps user_id project_id c w = access.role_read_keeps user_id project_id w

  -- After the endpoint has been found, the test of a capability still reads the role at the start.
  pub found_capability :
      (user_id id project_id : Uuid) (c : Capability) (w : S)
      → (has_capability service.roles user_id project_id c (service.repository.find_by_id id w).1).0
        ≡ true
      → allows c (role_at (content w) user_id project_id) ≡ true
  found_capability user_id id project_id c w h = ground (
    arith,
    capability_read user_id project_id c (service.repository.find_by_id id w).1,
    access.find_keeps id w,
  )

  pub found_keeps :
      (user_id id project_id : Uuid) (c : Capability) (w : S)
      → content
          (has_capability service.roles user_id project_id c
            (service.repository.find_by_id id w).1).1
        ≡ content w
  found_keeps user_id id project_id c w =
      capability_keeps user_id project_id c (service.repository.find_by_id id w).1
      ∙ access.find_keeps id w

  -- A call for which the user's role lacks the capability leaves all that is stored as it was,
  -- whatever fails on the way: listing and getting ask for viewing, creating and updating for
  -- editing, deleting for deleting, publishing for publishing, each in the project of the endpoint.
  pub unauthorised_unchanged :
      (user_id : Uuid) (call : Call) (w : S)
      → may user_id call w (project_of call w) ≡ false
      → content (perform service user_id call w) ≡ content w
  unfolding perform get_project_endpoints get_endpoint create_endpoint update_endpoint
      delete_endpoint publish_endpoint
  unauthorised_unchanged user_id (listing p) w h = ground (
    arith,
    capability_read user_id p view_endpoints w,
    capability_keeps user_id p view_endpoints w,
  )
  unauthorised_unchanged user_id (getting id) w h =
      elim (Found-cases (service.repository.find_by_id id w).0) [
        | inl missing ↦ ground (arith, missing, access.find_keeps id w)
        | inr (e, found) ↦ ground (
          arith,
          found,
          access.find_reads id w e,
          found_capability user_id id e.project_id view_endpoints w,
          found_keeps user_id id e.project_id view_endpoints w,
        )
      ]
  unauthorised_unchanged user_id (updating id revision) w h =
      elim (Found-cases (service.repository.find_by_id id w).0) [
        | inl missing ↦ ground (arith, missing, access.find_keeps id w)
        | inr (e, found) ↦ ground (
          arith,
          found,
          access.find_reads id w e,
          found_capability user_id id e.project_id edit_endpoints w,
          found_keeps user_id id e.project_id edit_endpoints w,
        )
      ]
  unauthorised_unchanged user_id (deleting id) w h =
      elim (Found-cases (service.repository.find_by_id id w).0) [
        | inl missing ↦ ground (arith, missing, access.find_keeps id w)
        | inr (e, found) ↦ ground (
          arith,
          found,
          access.find_reads id w e,
          found_capability user_id id e.project_id delete_endpoints w,
          found_keeps user_id id e.project_id delete_endpoints w,
        )
      ]
  unauthorised_unchanged user_id (publishing id) w h =
      elim (Found-cases (service.repository.find_by_id id w).0) [
        | inl missing ↦ ground (arith, missing, access.find_keeps id w)
        | inr (e, found) ↦ ground (
          arith,
          found,
          access.find_reads id w e,
          found_capability user_id id e.project_id publish_endpoints w,
          found_keeps user_id id e.project_id publish_endpoints w,
        )
      ]
  unauthorised_unchanged user_id (creating p e) w h = ground (
    arith,
    capability_read user_id p edit_endpoints w,
    capability_keeps user_id p edit_endpoints w,
  )
