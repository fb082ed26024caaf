-- ===== src/Dbus/Tests.antt =====
-- Concrete settings, and instances of the theorems about them.
mod Bus
mod Settings
mod Signals
