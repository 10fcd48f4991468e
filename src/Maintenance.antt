-- ===== src/Maintenance.antt =====
-- internal/maintenance/maintenance.go: verifying a codename and cleaning the pool. The progress
-- reports are left out.
pub mod Partial
pub mod Verify
pub mod Clean
mod Tests
