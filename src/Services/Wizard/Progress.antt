-- ===== src/Services/Wizard/Progress.antt =====
-- How far the setup has come, and that it never goes back.
use nexustal.Common.{
  ℕ, ◌≤◌, ◌≡◌, ◌≢◌, ◌↔◌, true, false, some, List, [], ◌∷◌, arith, is_some, is_empty, All,
}
use nexustal.Domain.Identity.{Uuid, Timestamp, User}
use nexustal.Domain.Wizard.{Step, DatabaseConfig, AdminCredentials, CompanyProfile}
use nexustal.Domain.Ports.{UserRepository, PasswordHasher}
use nexustal.Services.Wizard.{
  WizardService, get_status, configure_database, register_company, new_admin, create_admin,
}

abbrev pub step_rank : Step → ℕ
step_rank Step.database = 0
step_rank Step.admin = 1
step_rank Step.company = 2
step_rank Step.complete = 3

abbrev pub rank : WizardService → ℕ
rank service = step_rank (get_status service).current_step

-- The setup is complete exactly when a database is configured, an administrator has been created
-- and a company is registered, and it is then at its last step.
pub get_status-complete :
    (service : WizardService)
    → (((get_status service).is_complete ≡ true) ↔ (
        (is_some service.configured_database ≡ true)
        × (service.admin_created ≡ true)
        × (is_some service.company_profile ≡ true)))
      × (((get_status service).is_complete ≡ true)
          ↔ ((get_status service).current_step ≡ Step.complete))
unfolding get_status
get_status-complete service = ground arith

pub data Call : Type 0 where
  configuring : DatabaseConfig → Call
  administering : (id version : Uuid) → Timestamp → AdminCredentials → Call
  registering : CompanyProfile → Call

module _ {S : Type 0} (users : UserRepository S) (hasher : PasswordHasher) where
  -- One call, whose exception is caught by the framework above.
  unfoldable pub step : Call → WizardService × S → WizardService × S
  step (configuring config) (service, s) = ((configure_database config service).1, s)
  step (administering id version now credentials) w =
      (create_admin users hasher id version now credentials w).1
  step (registering profile) (service, s) = ((register_company profile service).1, s)

  unfoldable pub run : List Call → WizardService × S → WizardService × S
  run [] w = w
  run (call ∷ calls) w = run calls (step call w)

  -- What the setup needs of the user repository: a user with an identifier is not created under
  -- the empty one.
  abbrev pub Names : Type 0
  Names = (user : User) (s : S) → is_empty user.id ≡ false → (users.create user s).0 ≢ some []

  abbrev pub IsNamed : Call → Type 0
  IsNamed (configuring config) = Unit
  IsNamed (administering id version now credentials) = is_empty id ≡ false
  IsNamed (registering profile) = Unit

  module _ (names : Names) where
    step-rank :
        (call : Call) (w : WizardService × S) → IsNamed call → rank w.0 ≤ rank (step call w).0
    unfolding step get_status configure_database register_company create_admin
    step-rank (configuring config) (service, s) n = ground arith
    step-rank (registering profile) (service, s) n = ground arith
    step-rank (administering id version now credentials) (service, s) n = ground (
      arith,
      names (new_admin hasher id version now credentials)
          (users.find_by_username credentials.username s).1 n,
    )

    -- No sequence of calls, refused, failing and repeated ones included, moves the setup back to an
    -- earlier step, if the identifiers drawn for administrators are not empty.
    pub run-rank :
        (calls : List Call) (w : WizardService × S)
        → All IsNamed calls
        → rank w.0 ≤ rank (run calls w).0
    unfolding run
    run-rank [] w n = omega arith
    run-rank (call ∷ calls) w n =
        omega (arith, step-rank call w n.0, run-rank calls (step call w) n.1)
