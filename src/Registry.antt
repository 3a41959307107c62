-- ===== src/Registry.antt =====
-- internal/service/registry.go.
pub mod Version
pub mod Ids
pub mod Identifier
pub mod Service
