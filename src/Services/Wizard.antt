-- ===== src/Services/Wizard.antt =====
-- backend/application/wizard_service.cpp. A call that lets an exception out gives nothing.
pub mod Progress
use nexustal.Common.{
  ℕ, zero, suc, ◌+◌, ◌-◌, ◌*◌, ◌/◌, ◌%◌, ◌^◌, ◌≤◌, ◌<◌, String, ◌≡◌, refl, sym, ap, ◌∙◌, subst, ◌≢◌,
  ◌↔◌, ◌⊎◌, inl, inr, Bool, true, false, not, ◌&&◌, ◌||◌, Option, none, some, List, [], ◌∷◌, ◌++◌,
  append_assoc, append-nil, arith, ltb, leb, eqb, if◌then◌else◌, Bool-cases, Option-cases, is_some,
  Text, lit, ◌==◌, is_empty, eq_iff, eq_refl, ==-false, length, length-append, find_if, get_elem?,
  modify, update_where, count_if, count_if-pos, find_if-any, find_if-holds, insert_desc, order_desc,
  any-insert_desc, any-order_desc, All-insert_desc, All-order_desc, find_if-All, any-select,
  any-false, any_mono, any-append, All-append, All-select_self, find_if_unique, any, select, All,
  All-select, Dict, lookup, put, without, lookup-put, lookup-without, Action, ◌>>=◌, ◌>>◌, pure,
}
use nexustal.Domain.Identity.{Uuid, Timestamp, User}
use nexustal.Domain.Wizard.{Step, WizardStatus, DatabaseConfig, AdminCredentials, CompanyProfile}
use nexustal.Domain.Ports.{UserRepository, PasswordHasher}

-- The fields of the service; the repository's state stands beside them.
pub record WizardService : Type 0 where
  pub configured_database : Option DatabaseConfig
  pub company_profile : Option CompanyProfile
  pub admin_created : Bool

abbrev pub fresh : WizardService
fresh = record { configured_database = none; company_profile = none; admin_created = false }

unfoldable pub get_status : WizardService → WizardStatus
get_status service =
    if not (is_some service.configured_database)
    then record { current_step = Step.database; is_complete = false }
    else if not service.admin_created
    then record { current_step = Step.admin; is_complete = false }
    else if not (is_some service.company_profile)
    then record { current_step = Step.company; is_complete = false }
    else record { current_step = Step.complete; is_complete = true }

unfoldable pub configure_database : DatabaseConfig → WizardService → Bool × WizardService
configure_database config service =
    if is_empty config.host || is_empty config.dbname || is_empty config.user
    then (false, service)
    else (true, record service { configured_database = some config })

unfoldable pub register_company : CompanyProfile → WizardService → Bool × WizardService
register_company profile service =
    if is_empty profile.name
    then (false, service)
    else (true, record service { company_profile = some profile })

abbrev pub new_admin : PasswordHasher → (id version : Uuid) → Timestamp → AdminCredentials → User
new_admin hasher id version now credentials = record {
  id = id;
  username = credentials.username;
  password_hash = hasher.hash credentials.password;
  is_admin = true;
  is_active = true;
  token_version = version;
  created_at = now;
}

-- `adminCreated_ = !create(admin).empty()`, unless `create` throws.
abbrev pub settle :
    {S : Type 0} → WizardService → Option Uuid → S → Option Bool × (WizardService × S)
settle service none s = (none, (service, s))
settle service (some id) s =
    (some (not (is_empty id)), (record service { admin_created = not (is_empty id) }, s))

module _ {S : Type 0} (users : UserRepository S) (hasher : PasswordHasher) where
  unfoldable pub create_admin :
      (id version : Uuid) → Timestamp → AdminCredentials → Action (WizardService × S) (Option Bool)
  create_admin id version now credentials (service, s) =
      if is_empty credentials.username || is_empty credentials.password
      then (some false, (service, s))
      else (let (existing, s') = users.find_by_username credentials.username s in
          if is_some existing
          then (some false, (service, s'))
          else (let (created, s'') =
                users.create (new_admin hasher id version now credentials) s' in
              settle service created s''))
