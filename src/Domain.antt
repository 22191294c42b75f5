-- ===== src/Domain.antt =====
-- The domain layer, backend/domain.
pub mod Identity
pub mod Capabilities
pub mod Json
pub mod Endpoint
pub mod Environment
pub mod Uuid
pub mod Wizard
pub mod Ports
