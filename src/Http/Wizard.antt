-- ===== src/Http/Wizard.antt =====
-- backend/src/controllers/wizard_controller.cpp. None of its routes has a filter.
pub mod Laws
use nexustal.Common.Options.{◌>>=◌}
use nexustal.Domain.Identity.{Timestamp, Uuid}
use nexustal.Http.Payloads.{if_member, text_at}
use nexustal.Services.Wizard.{
  create_admin, register_company, get_status, configure_database, WizardService,
}
use nexustal.Domain.Ports.{PasswordHasher, UserRepository}
use nexustal.Http.{ok, error, Request, outcome, JsonCpp, Response}
use nexustal.Domain.Wizard.{AdminCredentials, DatabaseConfig, CompanyProfile, Step}
use nexustal.Domain.Json.{boolean, number, object_of, object, Json, JsonLib}
use nexustal.Common.{
  ℕ, zero, suc, ◌+◌, ◌-◌, ◌*◌, ◌/◌, ◌%◌, ◌^◌, ◌≤◌, ◌<◌, String, ◌≡◌, refl, sym, ap, ◌∙◌, subst, ◌≢◌,
  ◌↔◌, ◌⊎◌, inl, inr, Bool, true, false, not, ◌&&◌, ◌||◌, Option, none, some, List, [], ◌∷◌, ◌++◌,
  append_assoc, append-nil, arith, ltb, leb, eqb, if◌then◌else◌, Bool-cases, Option-cases, is_some,
  Text, lit, ◌==◌, is_empty, eq_iff, eq_refl, ==-false, length, length-append, find_if, get_elem?,
  modify, take-length, drop-length, take, drop, drop-zero, take-append, drop-append, update_where,
  count_if, count_if-pos, find_if-any, find_if-holds, insert_desc, order_desc, any-insert_desc,
  any-order_desc, All-insert_desc, All-order_desc, find_if-All, any-select, any-false, any_mono,
  any-append, All-append, All-select_self, find_if_unique, any, select, All, All-select, Dict,
  lookup, put, without, lookup-put, lookup-without, Action,
}

abbrev unavailable : JsonLib → Response
unavailable lib = error lib 503 (lit "wizard service is not configured")

abbrev invalid_json : JsonLib → Response
invalid_json lib = error lib 400 (lit "invalid json")

-- `static_cast<int>`
abbrev step_number : Step → Text
step_number Step.database = lit "0"
step_number Step.admin = lit "1"
step_number Step.company = lit "2"
step_number Step.complete = lit "3"

abbrev responded : {S : Type 0} → JsonLib → Option Bool × S → Option Response × S
responded lib (none, s) = (none, s)
responded lib (some success, s) = (some (outcome lib 400 success), s)

module _ (lib : JsonLib) (cpp : JsonCpp) where
  abbrev port_at : Json → Text → Option ℕ
  port_at json key = do value ← cpp.member json key; cpp.as_int value

  unfoldable pub read_config : Json → Option DatabaseConfig
  read_config json = do
    host ← text_at lib cpp json (lit "host")
    port ← if_member lib cpp json (lit "port") port_at 5432
    dbname ← text_at lib cpp json (lit "dbname")
    user ← text_at lib cpp json (lit "user")
    password ← text_at lib cpp json (lit "password")
    some (record { host = host; port = port; dbname = dbname; user = user; password = password })

  unfoldable pub read_credentials : Json → Option AdminCredentials
  read_credentials json = do
    username ← text_at lib cpp json (lit "username")
    password ← text_at lib cpp json (lit "password")
    some (record { username = username; password = password })

  unfoldable pub read_profile : Json → Option CompanyProfile
  read_profile json = do
    name ← text_at lib cpp json (lit "name")
    activity_scope ← text_at lib cpp json (lit "activity_scope")
    installation_id ← text_at lib cpp json (lit "installation_id")
    some
        (record { name = name; activity_scope = activity_scope; installation_id = installation_id })

  -- The service's fields, or nothing while it is not configured.
  unfoldable pub status_route : Option WizardService → Response
  status_route none = unavailable lib
  status_route (some service) =
      let status = get_status service in
      ok (
        object (
          object_of lib (
            (lit "step", number (step_number status.current_step))
            ∷ (lit "is_complete", boolean status.is_complete)
            ∷ [])))

  abbrev configured : Option DatabaseConfig → WizardService → Option Response × WizardService
  configured none service = (none, service)
  configured (some config) service = (
    some (outcome lib 400 (configure_database config service).0),
    (configure_database config service).1,
  )

  abbrev configure_body : Option Json → WizardService → Option Response × WizardService
  configure_body none service = (some (invalid_json lib), service)
  configure_body (some json) service = configured (read_config json) service

  unfoldable pub configure_db : Request → WizardService → Option Response × WizardService
  configure_db request service = configure_body request.json service

  abbrev registered : Option CompanyProfile → WizardService → Option Response × WizardService
  registered none service = (none, service)
  registered (some profile) service = (
    some (outcome lib 400 (register_company profile service).0),
    (register_company profile service).1,
  )

  abbrev register_body : Option Json → WizardService → Option Response × WizardService
  register_body none service = (some (invalid_json lib), service)
  register_body (some json) service = registered (read_profile json) service

  unfoldable pub register_company_route : Request → WizardService → Option Response × WizardService
  register_company_route request service = register_body request.json service

module _ {S : Type 0} (lib : JsonLib) (cpp : JsonCpp) (users : UserRepository S)
    (hasher : PasswordHasher) where
  abbrev administered :
      (id version : Uuid)
      → Timestamp
      → Option AdminCredentials
      → Action (WizardService × S) (Option Response)
  administered id version now none s = (none, s)
  administered id version now (some credentials) s =
      responded lib (create_admin users hasher id version now credentials s)

  abbrev admin_body :
      (id version : Uuid) → Timestamp → Option Json → Action (WizardService × S) (Option Response)
  admin_body id version now none s = (some (invalid_json lib), s)
  admin_body id version now (some json) s =
      administered id version now (read_credentials lib cpp json) s

  unfoldable pub create_admin_route :
      (id version : Uuid) → Timestamp → Request → Action (WizardService × S) (Option Response)
  create_admin_route id version now request = admin_body id version now request.json
