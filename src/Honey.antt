-- ===== src/Honey.antt =====
-- The package honey: tables and indexes over a key-value store, and the registry of replica prefixes.
pub mod Store
pub mod Replicas
pub mod Table
pub mod Memory
pub mod Portable
