-- ===== src/Connection/Tests.antt =====
-- Concrete runs of the connection layer, and instances of its theorems.
pub mod Data
mod Manager
mod Stores
mod Profiles
mod Association
pub mod Folder
