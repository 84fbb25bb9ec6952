-- ===== src/Shared.antt =====
-- shared/: the audit log, and the caller of a request.
pub mod Audit
pub mod Deps
