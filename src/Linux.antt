-- ===== src/Linux.antt =====
-- src/linux: the model of kernel state and the DHCP codec.
pub mod Model
pub mod Dhcp
pub mod IpEngine
pub mod Netlink
pub mod IpConfig
pub mod Nl80211
pub mod Dns
pub mod Supplicant
pub mod Activation
pub mod Tests
