-- ===== src/Services.antt =====
-- The application layer, backend/application.
pub mod Engine
pub mod Invitations
pub mod Roles
pub mod Endpoints
pub mod Wizard
pub mod Auth
pub mod Users
