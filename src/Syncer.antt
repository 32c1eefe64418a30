-- ===== src/Syncer.antt =====
-- Syncing folders with a server (internal/syncer).
pub mod Plan
pub mod Both
mod Tests
