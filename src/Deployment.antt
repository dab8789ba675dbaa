-- ===== src/Deployment.antt =====
-- The deployment loader, internal/deployment/loader.go: the part that checks the challenge of a
-- manifest before it replaces the configured one.
pub mod Defs
pub mod Validate
pub mod Accepted
pub mod Guarantees
pub mod Complete
pub mod Prepare
pub mod Load
pub mod Tests
