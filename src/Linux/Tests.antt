-- ===== src/Linux/Tests.antt =====
-- Concrete messages and codes, and instances of the theorems about them.
mod Messages
mod Radios
mod Engine
mod Kernel
mod Networks
mod Activations
mod Leases
mod Resolver
