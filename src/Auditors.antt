-- ===== src/Auditors.antt =====
-- auditors/: the finding that a check produces, the run of an engine's checks, and the engines.
pub mod Finding
pub mod Base
pub mod Isolation
pub mod Reports
pub mod Aws
pub mod Gcp
pub mod Azure
pub mod Scale
pub mod Prowler
