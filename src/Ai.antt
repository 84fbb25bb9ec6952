-- ===== src/Ai.antt =====
-- ai/: the priority of a finding.
pub mod Prioritization
