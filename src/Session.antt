-- ===== src/Session.antt =====
-- The session files, internal/session.
pub mod Service
pub mod Paths
pub mod Apart
pub mod Created
mod Tests
