-- ===== src/Dbus.antt =====
-- src/dbus: the NetworkManager-compatible D-Bus facade.
pub mod Error
pub mod Convert
pub mod Permission
pub mod Device
pub mod Shared
pub mod Tests
