-- ===== src/Zone.antt =====
-- internal/zone: the resolved data of each view, and which client sees which view.
pub mod Matcher
pub mod Names
pub mod Index
pub mod Snapshot
pub mod Holder
mod Tests
