-- ===== src/Domain/Capabilities/Laws.antt =====
-- What the roles grant, and how they are stored.
use nexustal.Common.{ℕ, ◌≤◌, ◌≡◌, refl, ◌≢◌, ◌↔◌, ◌⊎◌, true, arith, Text, lit, ◌==◌, eq_iff}
use nexustal.Domain.Identity.{UserRole, admin, backend_dev, frontend_dev, viewer}
use nexustal.Domain.Capabilities.{
  Capability, view_endpoints, edit_endpoints, delete_endpoints, publish_endpoints, run_tests,
  manage_team, role_from_string, to_string, has_capability,
}

-- Reading back the stored name of a role gives that role.
pub role_from_string-to_string : (r : UserRole) → role_from_string (to_string r) ≡ r
unfolding role_from_string to_string lit ◌==◌
role_from_string-to_string admin = refl
role_from_string-to_string backend_dev = refl
role_from_string-to_string frontend_dev = refl
role_from_string-to_string viewer = refl

-- The stored names are four different texts.
stored_names_differ :
    (lit "admin" ≢ lit "backend_dev")
    × (lit "admin" ≢ lit "frontend_dev")
    × (lit "admin" ≢ lit "viewer")
    × (lit "backend_dev" ≢ lit "frontend_dev")
    × (lit "backend_dev" ≢ lit "viewer")
    × (lit "frontend_dev" ≢ lit "viewer")
unfolding lit
stored_names_differ = ((λ e. cc), (λ e. cc), (λ e. cc), (λ e. cc), (λ e. cc), (λ e. cc))

-- A role is read from a text exactly when the text is its stored name, or, for the viewer, when
-- the text is not the stored name of any other role.
pub role_from_string_iff :
    (t : Text) (r : UserRole)
    → (role_from_string t ≡ r) ↔ (
        (t ≡ to_string r)
        ⊎ ((r ≡ viewer)
            × (t ≢ to_string admin)
            × (t ≢ to_string backend_dev)
            × (t ≢ to_string frontend_dev)))
unfolding role_from_string to_string
role_from_string_iff t r = ground (
  arith,
  stored_names_differ,
  eq_iff t (lit "admin"),
  eq_iff t (lit "backend_dev"),
  eq_iff t (lit "frontend_dev"),
)

-- The order of the roles, the widest first.
abbrev pub rank : UserRole → ℕ
rank admin = 3
rank backend_dev = 2
rank frontend_dev = 1
rank viewer = 0

abbrev pub least_rank : Capability → ℕ
least_rank view_endpoints = 0
least_rank run_tests = 0
least_rank edit_endpoints = 1
least_rank publish_endpoints = 2
least_rank delete_endpoints = 3
least_rank manage_team = 3

-- A role has a capability exactly when it ranks at least as high as the capability asks: viewing
-- and running tests take any role, editing a front-end developer, publishing a back-end developer,
-- deleting and managing the team an administrator.
pub has_capability_iff :
    (r : UserRole) (c : Capability) → (has_capability r c ≡ true) ↔ (least_rank c ≤ rank r)
unfolding has_capability
has_capability_iff r c = ground arith
