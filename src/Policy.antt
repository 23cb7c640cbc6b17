-- ===== src/Policy.antt =====
-- internal/policy: the blacklist policy.
pub mod Set
pub mod Normalize
pub mod Snapshot
pub mod Holder
pub mod Parse
pub mod Refresher
mod Tests
