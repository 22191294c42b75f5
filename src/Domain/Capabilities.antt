-- ===== src/Domain/Capabilities.antt =====
-- backend/domain/auth/capabilities.hpp. A set of capabilities is the list of its members.
pub mod Laws
use nexustal.Common.{
  ℕ, zero, suc, ◌+◌, ◌-◌, ◌*◌, ◌/◌, ◌%◌, ◌^◌, ◌≤◌, ◌<◌, String, ◌≡◌, refl, sym, ap, ◌∙◌, subst, ◌≢◌,
  ◌↔◌, ◌⊎◌, inl, inr, Bool, true, false, not, ◌&&◌, ◌||◌, Option, none, some, List, [], ◌∷◌, ◌++◌,
  append_assoc, append-nil, arith, ltb, leb, eqb, if◌then◌else◌, Bool-cases, Option-cases, is_some,
  Text, lit, ◌==◌, is_empty, eq_iff, eq_refl, ==-false, length, length-append, find_if, any, select,
  All, All-select, Dict, lookup, put, without, lookup-put, lookup-without,
}
use nexustal.Domain.Identity.{UserRole, admin, backend_dev, frontend_dev, viewer}

pub data Capability : Type 0 where
  view_endpoints edit_endpoints delete_endpoints : Capability
  publish_endpoints run_tests manage_team : Capability

-- The value of the enumerator, by which `CapabilityHash` hashes.
abbrev pub capability_hash : Capability → ℕ
capability_hash view_endpoints = 0
capability_hash edit_endpoints = 1
capability_hash delete_endpoints = 2
capability_hash publish_endpoints = 3
capability_hash run_tests = 4
capability_hash manage_team = 5

unfoldable pub capabilities_for_role : UserRole → List Capability
capabilities_for_role admin =
    view_endpoints ∷ edit_endpoints ∷ delete_endpoints ∷ publish_endpoints ∷ run_tests ∷ manage_team
    ∷ []
capabilities_for_role backend_dev =
    view_endpoints ∷ edit_endpoints ∷ publish_endpoints ∷ run_tests ∷ []
capabilities_for_role frontend_dev = view_endpoints ∷ edit_endpoints ∷ run_tests ∷ []
capabilities_for_role viewer = view_endpoints ∷ run_tests ∷ []

unfoldable pub role_from_string : Text → UserRole
role_from_string role =
    if role == lit "admin"
    then admin
    else if role == lit "backend_dev"
    then backend_dev
    else if role == lit "frontend_dev"
    then frontend_dev
    else viewer

unfoldable pub to_string : UserRole → Text
to_string admin = lit "admin"
to_string backend_dev = lit "backend_dev"
to_string frontend_dev = lit "frontend_dev"
to_string viewer = lit "viewer"

-- `contains` of the set
unfoldable pub contains : List Capability → Capability → Bool
contains held c = any (λ d. eqb (capability_hash d) (capability_hash c)) held

unfoldable pub has_capability : UserRole → Capability → Bool
unfolding capabilities_for_role contains
has_capability role c = contains (capabilities_for_role role) c
