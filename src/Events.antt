-- ===== src/Events.antt =====
-- The event streams of signed-in users.
pub mod Streams
