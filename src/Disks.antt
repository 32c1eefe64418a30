-- ===== src/Disks.antt =====
-- Disk images (internal/disks).
pub mod Locks
mod Tests
