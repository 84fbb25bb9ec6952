-- ===== src/Service.antt =====
-- service.py: scans, the findings they leave, and drift.
pub mod Persist
pub mod Batch
pub mod Added
pub mod Scans
pub mod DriftCheck
pub mod DriftTwice
pub mod DriftReported
pub mod Steady
pub mod Settled
