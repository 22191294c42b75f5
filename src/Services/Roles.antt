-- ===== src/Services/Roles.antt =====
-- backend/application/role_service.cpp.
pub mod Keys
use nexustal.Common.{
  ℕ, Bool, false, Option, none, some, List, [], ◌∷◌, ◌++◌, if◌then◌else◌, Text, lit, is_empty,
  Action, ◌>>=◌, ◌>>◌, pure,
}
use nexustal.Domain.Identity.{Uuid, UserRole}
use nexustal.Domain.Capabilities.{Capability, role_from_string, to_string, capabilities_for_role}
use nexustal.Domain.Capabilities.{has_capability as role_has_capability}
use nexustal.Domain.Ports.{ProjectRepository, Cache}

pub record RoleService (S : Type 0) : Type 0 where
  pub projects : ProjectRepository S
  pub cache : Option (Cache S)

abbrev pub role_cache_ttl_seconds : ℕ
role_cache_ttl_seconds = 300

unfoldable pub cache_key_for : Uuid → Uuid → Text
cache_key_for user_id project_id = lit "project_role:" ++ (project_id ++ (b':' ∷ user_id))

-- The role that a reply of the cache names; an exception and an empty text name none.
abbrev pub cached_role : Option Text → Option UserRole
cached_role none = none
cached_role (some value) = if is_empty value then none else some (role_from_string value)

abbrev pub read_cache : {S : Type 0} → Option (Cache S) → Text → Action S (Option Text)
read_cache none key = pure none
read_cache (some cache) key = cache.read key

abbrev pub write_cache :
    {S : Type 0} → Option (Cache S) → Text → Option UserRole → Action S (Unit {0})
write_cache (some cache) key (some role) = cache.setex key role_cache_ttl_seconds (to_string role)
write_cache (some cache) key none = pure tt
write_cache none key role = pure tt

abbrev pub granted : Option UserRole → List Capability
granted none = []
granted (some role) = capabilities_for_role role

abbrev pub allows : Capability → Option UserRole → Bool
allows capability none = false
allows capability (some role) = role_has_capability role capability

module _ {S : Type 0} (service : RoleService S) where
  unfoldable pub get_project_role : Uuid → Uuid → Action S (Option UserRole)
  get_project_role user_id project_id = do
    reply ← read_cache service.cache (cache_key_for user_id project_id)
    elim (cached_role reply) [
      | some role ↦ pure (some role)
      | none ↦ do
        role ← service.projects.find_role_for_user project_id user_id
        write_cache service.cache (cache_key_for user_id project_id) role
        pure role
    ]

  unfoldable pub get_capabilities : Uuid → Uuid → Action S (List Capability)
  unfolding get_project_role
  get_capabilities user_id project_id = do
    role ← get_project_role user_id project_id
    pure (granted role)

  unfoldable pub has_capability : Uuid → Uuid → Capability → Action S Bool
  unfolding get_project_role
  has_capability user_id project_id capability = do
    role ← get_project_role user_id project_id
    pure (allows capability role)
