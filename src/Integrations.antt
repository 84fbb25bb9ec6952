-- ===== src/Integrations.antt =====
-- integrations/: the gate of a build pipeline.
pub mod Cicd
