-- ===== src/Models.antt =====
-- The rows of the database. Times are microseconds of UTC; a float column counts tenths.
pub mod Json
pub mod Tenancy
pub mod Posture
pub mod Commerce
