-- ===== src/Upstream.antt =====
-- internal/upstream: the configured resolvers.
pub mod Parse
mod Tests
