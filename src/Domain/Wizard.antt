-- ===== src/Domain/Wizard.antt =====
-- backend/domain/wizard_contracts.hpp.
use nexustal.Common.{ℕ, Bool, Text}

pub data Step : Type 0 where
  database admin company complete : Step

pub record WizardStatus : Type 0 where
  pub current_step : Step
  pub is_complete : Bool

pub record DatabaseConfig : Type 0 where
  pub host : Text
  pub port : ℕ
  pub dbname : Text
  pub user : Text
  pub password : Text

pub record AdminCredentials : Type 0 where
  pub username : Text
  pub password : Text

pub record CompanyProfile : Type 0 where
  pub name : Text
  pub activity_scope : Text
  pub installation_id : Text
