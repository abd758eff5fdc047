-- ===== src/Utils.antt =====
-- The package utils.
pub mod TimeZones
