-- ===== src/Tests/Endpoints.antt =====
-- One endpoint of a project in which everyone is a front-end developer.
use nexustal.Domain.Json.{empty_object}
use nexustal.Domain.Identity.{UserRole, frontend_dev, Uuid}
use nexustal.Domain.Ports.{EndpointRepository, ProjectRepository}
use nexustal.Services.Endpoints.Access.{
  project_of, may, unauthorised_unchanged, deleting, Summary, summary_of, perform, Access,
}
use nexustal.Services.Endpoints.{EndpointService}
use nexustal.Services.Roles.{get_project_role}
use nexustal.Domain.Endpoint.{default_rest, of_rest, rest, Endpoint}
use nexustal.Tests.Data.{alice, shop, bob, first}
use nexustal.Domain.Capabilities.{has_capability as role_has_capability}
use nexustal.Common.{
  ◌≡◌, refl, Bool, true, false, Option, none, some, List, [], ◌∷◌, arith, if◌then◌else◌, lit, ◌==◌,
  eq_iff, find_if,
}

abbrev revise : Endpoint → Option Endpoint → Option Bool × Option Endpoint
revise e none = (some false, none)
revise e (some c) =
    if c.id == e.id
    then (some true, some (record c { status = e.status }))
    else (some false, some c)

abbrev shown : Option Endpoint → List Endpoint
shown none = []
shown (some e) = e ∷ []

abbrev shelf : EndpointRepository (Option Endpoint)
shelf = record {
  find_by_project = λ project_id w. (some [], w);
  find_by_id = λ id w. (some (find_if (λ e. e.id == id) (shown w)), w);
  create = λ e w. (some [], w);
  update = revise;
  remove = λ id w. (true, none);
  search_by_tags = λ project_id tags w. ([], w);
}

abbrev everyone : ProjectRepository (Option Endpoint)
everyone = record {
  find_role_for_user = λ project_id user_id w. (some frontend_dev, w);
  add_member = λ project_id user_id role w. (false, w);
}

abbrev service : EndpointService (Option Endpoint)
service = record { repository = shelf; roles = record { projects = everyone; cache = none } }

abbrev draft : Endpoint
draft = record {
  id = first;
  project_id = shop;
  name = empty_object;
  description = empty_object;
  created_by = alice;
  status = lit "draft";
  kind = rest;
  details = of_rest default_rest;
  tag_ids = [];
  created_at = 0;
  updated_at = 0;
}

abbrev summary_in : Option Endpoint → Uuid → Option Summary
summary_in none j = none
summary_in (some e) j = if e.id == j then some (summary_of e) else none

granted_role :
    (user_id project_id : Uuid) (w : Option Endpoint) (r : UserRole)
    → (get_project_role service.roles user_id project_id w).0 ≡ some r
    → some frontend_dev ≡ some r
unfolding get_project_role
granted_role user_id project_id w r h = h

granted_keeps :
    (user_id project_id : Uuid) (w : Option Endpoint)
    → (get_project_role service.roles user_id project_id w).1 ≡ w
unfolding get_project_role
granted_keeps user_id project_id w = refl

shelf_reads :
    (id : Uuid) (w : Option Endpoint) (e : Endpoint)
    → (service.repository.find_by_id id w).0 ≡ some (some e)
    → (summary_in w id ≡ some (summary_of e)) × (e.id ≡ id)
shelf_reads id none e h = ground arith
shelf_reads id (some c) e h = ground (arith, eq_iff c.id id)

abbrev access : Access (Option Endpoint) (Option Endpoint) service
access = record {
  content = λ w. w;
  summary = summary_in;
  role_at = λ w user_id project_id. some frontend_dev;
  role_read = granted_role;
  role_read_keeps = granted_keeps;
  find_reads = shelf_reads;
  find_keeps = λ id w. refl;
  list_keeps = λ project_id w. refl;
}

cannot_delete :
    may access bob (deleting first) (some draft) (project_of access (deleting first) (some draft))
    ≡ false
unfolding role_has_capability ◌==◌
cannot_delete = refl

unauthorised_unchanged_example : perform service bob (deleting first) (some draft) ≡ some draft
unauthorised_unchanged_example =
    unauthorised_unchanged access bob (deleting first) (some draft) cannot_delete
