-- ===== src/Health.antt =====
-- internal/health: whether the services answer.
pub mod Checker
mod Tests
