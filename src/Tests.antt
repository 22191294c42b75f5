-- ===== src/Tests.antt =====
-- The theorems at concrete inputs.
pub mod Data
mod Invitations
mod Members
mod Endpoints
pub mod Http
mod Rows
pub mod Sessions
mod Texts
mod Setup
pub mod Variables
mod Execution
mod Migrations
mod Login
mod Streams
mod Sandbox
mod Stack
