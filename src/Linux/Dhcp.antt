-- ===== src/Linux/Dhcp.antt =====
-- src/linux/dhcp/: the codec of BOOTP/DHCP messages, and the client.
pub mod Packet
pub mod Client
