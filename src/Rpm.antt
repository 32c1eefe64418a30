-- ===== src/Rpm.antt =====
-- Reading rpm packages (internal/rpm).
pub mod Version
pub mod Evr
mod Tests
