-- ===== src/Platform.antt =====
-- The start-up of the engine: backend/src/platform.
pub mod Versions
pub mod Migrations
pub mod Startup
