-- ===== src/Dns.antt =====
-- internal/dnsserver: the DNS server's components.
pub mod Acl
pub mod History
pub mod Metrics
pub mod Message
pub mod Cache
pub mod Authoritative
pub mod Forwarder
pub mod Server
mod Tests
