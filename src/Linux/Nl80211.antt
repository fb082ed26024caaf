-- ===== src/Linux/Nl80211.antt =====
-- src/linux/nl80211.rs: generic netlink messages, and what nl80211 says of radios and networks.
pub mod Codec
pub mod RoundTrip
pub mod Readers
pub mod Elements
pub mod Radios
pub mod Requests
pub mod Security
pub mod Rsn
pub mod Bounds
