-- ===== src/Registry.antt =====
-- internal/registry: what may be registered.
pub mod Validate
pub mod Writes
