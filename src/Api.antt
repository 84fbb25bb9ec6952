-- ===== src/Api.antt =====
-- The HTTP API: the rate limit, and the handlers of api/router.py.
pub mod RateLimit
pub mod Window
pub mod Caller
pub mod Accounts
pub mod Findings
pub mod DriftEvents
pub mod Scans
pub mod Approved
pub mod Requests
pub mod Isolation
