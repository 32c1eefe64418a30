-- ===== src/Httpd.antt =====
-- The HTTP server (internal/httpd).
pub mod Throttle
mod Tests
