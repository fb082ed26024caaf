-- ===== src/Linux/Netlink.antt =====
-- src/linux/netlink.rs: netlink messages, their attributes, and what they say of the kernel.
pub mod Wire
pub mod Structs
pub mod Attributes
pub mod Parse
pub mod Messages
pub mod Streams
pub mod Sockets
pub mod Source
pub mod Answers
pub mod Listing
