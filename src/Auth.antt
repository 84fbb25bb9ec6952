-- ===== src/Auth.antt =====
-- auth/: API keys.
pub mod ApiKeys
pub mod Lookup
pub mod RoundTrip
