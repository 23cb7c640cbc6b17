-- ===== src/Dhcp.antt =====
-- internal/dhcpd: the built-in DHCPv4 server.
pub mod Alloc
pub mod Reserve
pub mod Hostname
pub mod Server
mod Tests
