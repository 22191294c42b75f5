-- ===== src/Tests/Data.antt =====
-- A team of two with a project, an invitation to it, and a collation.
use nexustal.Services.Engine.{World}
use nexustal.Storage.{has_project, has_user, has_team, InvitationRow, Tables, ProjectRow}
use nexustal.Storage.Users.{Collation}
use nexustal.Domain.Identity.{User, Uuid, Team}
use nexustal.Common.{refl, ◌≡◌, find_if, true, false, none, some, [], ◌∷◌, lit, ◌==◌}

abbrev pub alice : Uuid
alice = b'a' ∷ []

abbrev pub bob : Uuid
bob = b'b' ∷ []

abbrev pub core : Uuid
core = b't' ∷ []

abbrev pub shop : Uuid
shop = b'p' ∷ []

abbrev pub first : Uuid
first = b'i' ∷ []

abbrev pub notice : Uuid
notice = b'n' ∷ []

abbrev pub user_named : Uuid → User
user_named id = record {
  id = id;
  username = id;
  password_hash = [];
  is_admin = false;
  is_active = true;
  token_version = b'1' ∷ [];
  created_at = 0;
}

abbrev pub core_team : Team
core_team = record { id = core; name = []; description = []; owner_id = alice; created_at = 0 }

abbrev pub invited : InvitationRow
invited = record {
  id = first;
  from_user_id = alice;
  to_user_id = bob;
  team_id = none;
  project_id = some shop;
  role = lit "viewer";
  status = lit "pending";
  created_at = 5;
  responded_at = none;
}

abbrev pub shop_row : ProjectRow
shop_row = record { id = shop; team_id = core }

abbrev pub office : Tables
office = record {
  users = user_named alice ∷ user_named bob ∷ [];
  teams = core_team ∷ [];
  projects = shop_row ∷ [];
  members = [];
  invitations = invited ∷ [];
  endpoints = [];
  details = [];
  environments = [];
  globals = [];
  now = 7;
}

abbrev pub plain : Collation
plain = record { ilike = λ a b. a == b; before = λ a b. true }

abbrev pub running : World
running = record { db = record { tables = office; outages = [] }; sent = [] }

pub shop_found : find_if (λ q. q.id == shop) office.projects ≡ some shop_row
unfolding ◌==◌
shop_found = refl

pub team_known : has_team office core ≡ true
unfolding ◌==◌
team_known = refl

pub bob_known : has_user office bob ≡ true
unfolding ◌==◌
bob_known = refl

pub alice_known : has_user office alice ≡ true
unfolding ◌==◌
alice_known = refl

pub shop_known : has_project office shop ≡ true
unfolding ◌==◌
shop_known = refl
