-- ===== src/Settings.antt =====
-- internal/settings: the configuration that lives in the database, and the one way to change it.
pub mod Model
pub mod Validate
pub mod Rename
pub mod Service
mod Tests
