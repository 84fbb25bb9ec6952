-- ===== src/Api/Isolation.antt =====
-- A caller changes nothing of another org.
pub mod Found
pub mod Others
pub mod Handlers
pub mod Scanning
pub mod Orgs
