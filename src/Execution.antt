-- ===== src/Execution.antt =====
-- The execution of saved requests, backend/application/execution.
pub mod Replace
pub mod Variables
pub mod Environments
pub mod Scripts
pub mod Bundles
pub mod Requests
