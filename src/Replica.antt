-- ===== src/Replica.antt =====
-- internal/replica: pairing with another server.
pub mod Pairing
pub mod Puller
mod Tests
