-- ===== src/Sessions.antt =====
-- Access tokens and their revocation, backend/infrastructure/adapters/jwt_token_service.cpp.
pub mod Tokens
pub mod Revocation
pub mod Login
pub mod Postgres
