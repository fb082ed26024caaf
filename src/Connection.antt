-- ===== src/Connection.antt =====
-- src/connection: profiles, their store, the autoconnect order and the activation manager.
pub mod State
pub mod Ip
pub mod Profile
pub mod Policy
pub mod Store
pub mod Activation
pub mod Supplicant
pub mod Tests
