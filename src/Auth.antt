-- ===== src/Auth.antt =====
-- internal/auth: who may administer the server.
pub mod Session
pub mod Backoff
mod Tests
