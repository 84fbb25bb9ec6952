-- ===== src/Compliance.antt =====
-- compliance/: the static mappings, and the scores and evidence computed from them.
pub mod Mappings
pub mod Engine
pub mod Priority
pub mod Scores
