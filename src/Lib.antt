-- ===== src/Lib.antt =====
-- A model of the core of network-manager-rs: connection profiles and their stores, the activation
-- manager with its state machine and event log, the IP engine, the DHCPv4 message codec, the rtnetlink
-- requests, listings and events, the nl80211 messages and the security of the networks they list, the
-- files of the DNS manager, the supplicant, the policy in front of privileged calls, and the settings
-- that the D-Bus facade exchanges.
--
-- The parts and how they interact. A `ConnectionProfile` (src/connection/profile.rs) describes a
-- connection; a `ProfileStore` (src/connection/store.rs) keeps the valid ones under their ids. The
-- `ActivationManager` (src/connection/activation.rs) asks a store for profiles, orders the candidates
-- for a device (src/connection/policy.rs), has an `ActivationEngine` bring one up, walks the state
-- machine (src/connection/state.rs) and queues events for its client. On Linux the engine brings
-- up addresses, routes and DNS (src/linux/ip_engine.rs) over an IP, a DHCP and a DNS backend; the DHCP
-- messages are written and read by src/linux/dhcp/packet.rs. The IP backend (src/linux/ipconfig.rs)
-- sends requests that src/linux/netlink.rs writes; the same file reads the kernel's answers, its
-- listings and its events. src/linux/nl80211.rs does the same for radios and networks. src/linux/activation.rs
-- joins the supplicant's engine (src/connection/supplicant_engine.rs, over src/linux/supplicant.rs) and
-- the IP engine into the engine that the manager drives; src/linux/dns.rs writes the resolver's
-- configuration into files whose first line names their owner. The daemon (src/daemon.rs) holds a store
-- and the manager over it. The D-Bus facade converts profiles to settings and back (src/dbus/convert.rs),
-- asks src/authorization before a privileged call, and mirrors the events of the manager as signals
-- (src/dbus/shared.rs).
--
-- Files.
--   Common and its children: Boolean tests, lists, results, texts, machine words, integers, sorting.
--   Connection/State: states, transitions, events. State/Lifecycle: runs of the state machine.
--   Connection/Ip: the data of src/connection/ip.rs.
--   Connection/Profile: profiles, devices, secret references, validation and matching.
--     Profile/Build: the constructors. Profile/Validate and Profile/Matches: their specifications.
--   Connection/Store: errors, the store interface, the store in memory. Store/Tree: its map.
--     Store/Invariant and Store/Refines: its invariant, and the catalog that it implements.
--     Store/Files: the store of files, with Kept for what it hands out and RoundTrip for what it keeps.
--   Connection/Policy: the autoconnect order. Policy/Order: its specification.
--   Connection/Activation: the manager. Activation/Table: its list of connections.
--     Activation/Outcome: each operation on every branch. Activation/Moves: the operations as five
--     moves of a table. Activation/Invariant, Log and Stuck: what histories of moves keep.
--     Activation/InMemory and InFiles: the manager over the two stores.
--   Linux/Model: links, addresses and routes. Model/Codes: their wire codes. Model/Hex: MAC addresses
--     and octets as text. Model/Wireless: the wireless enumerations, with Model/Tables and
--     Model/Channels for their codes and channels.
--   Linux/Dhcp/Packet: messages, options, `serialize` and `parse`. Packet/Build: the messages of
--     client and server. Packet/Fields: the readers. Packet/Lease: `to_lease`. Packet/Netmask: prefix
--     lengths. Packet/Options and Packet/RoundTrip: what is read back.
--   Linux/Dhcp/Client: the client of src/linux/dhcp/mod.rs. Client/Exchange: a whole exchange.
--   Linux/IpEngine: bringing IP configuration up and down. IpEngine/Backends: the backend traits and
--     the steps over them. IpEngine/Routes, Ipv4, Ipv6, Teardown: routes, the two phases, the removal.
--     IpEngine/Attempts and Releases: the removals of routes and addresses, and the releases of leases
--     and DNS configurations, that a teardown asks for. IpEngine/Tracked, Recorded and Undone: what the
--     IPv4 phase asks to install, that it records it, and that a teardown takes it back.
--   Linux/Netlink: netlink.rs. Netlink/Wire and Structs: constants, words, the structs of a message and
--     the builders. Netlink/Attributes and Messages: the two loops of every parser. Netlink/Parse:
--     payloads. Netlink/Streams: buffers of built messages. Netlink/Sockets: requests and listings over
--     what a socket receives. Netlink/Source: the source of events. Netlink/Answers and Listing: what
--     requests and listings return.
--   Linux/IpConfig: ipconfig.rs. IpConfig/Values, Written and Payloads: what a request carries, read
--     back. IpConfig/Announced, Listed and Configured: requests as events, as listings, and in the
--     order in which a configuration sends them.
--   Linux/Nl80211: nl80211.rs. Nl80211/Codec and RoundTrip: messages. Nl80211/Readers: attributes.
--     Nl80211/Elements: information elements and security, with Security and Rsn for what is reported.
--     Nl80211/Radios: interfaces, radios and networks, with Bounds for their sizes. Nl80211/Requests:
--     the connection.
--   Linux/Activation: activation.rs, the engine that the activation manager drives on Linux.
--     Activation/Rollback: what it records and takes down.
--   Linux/Dns: dns.rs over a file system. Dns/Files: the calls of the file system. Dns/Owner: the sentinel
--     line. Dns/Ownership, Atomic and Granted: which files are left alone, what a call leaves behind,
--     and when it succeeds.
--   Linux/Supplicant: supplicant.rs, with Waiting for the wait. Connection/Supplicant: the activation engine
--     of supplicant_engine.rs. Supplicant/Calls: the networks that it registers and removes.
--   Authorization: callers, decisions and policies of src/authorization.
--   Daemon: daemon.rs. Daemon/Calls: histories of its calls. Daemon/Stores: the stores under it.
--   Dbus/Error: error.rs. Dbus/Convert: convert.rs. Convert/Variant: values and sections. Convert/Routes:
--     static routes. Convert/Uuid: the UUID of an id. Convert/Sections, Shown, Addresses and RoundTrip:
--     the settings of a profile, read back. Convert/Secrecy: secrets. Convert/Prefix: prefix lengths.
--     Dbus/Permission and Shared: shared.rs, its checks and its signals, with Shared/Silent for what is not
--     signalled. Dbus/Device: the devices of device.rs and their states.
--   Connection/Tests, Linux/Tests, Daemon/Tests and Dbus/Tests: concrete data and instances.
--
-- How the code is read. A method that takes `&mut self` returns its answer and the new state, also
-- after an error. The engine and the store are records of functions over a state of their own, so that
-- every theorem holds for every engine and, where stated, every store; between two calls of a history
-- the store may be any other. `String` is the list of its UTF-8 bytes, or of its
-- characters where the code scans it by character (Model/Hex, Dns), `BTreeMap` an association list
-- in strictly rising order of its keys, `sort_by` a stable insertion sort, `io::Error` its raw code. A
-- `u64` id wraps at 2 ^ 64, a length byte at 256. The position of an entry in a `Vec`, and the reads and
-- writes at that index, are searches for the first entry with the id. The text of an activation error,
-- and the lossy decoding and trimming of a DHCP text option, are parameters.
--
-- The IP engine's `state` and `outcome` arguments are fields of its `World` beside the backends; `&`
-- with a netmask is division and multiplication by a power of two; the kernel's list of addresses is an
-- argument.
--
-- Netlink structs are in the byte order of the machine, which is little-endian here; flags are or-ed
-- bitwise, and a test of one bit is a division and a remainder. A loop over a slice works on the bytes
-- from its offset on; a buffer's end is reached exactly when no byte is left and no padding was missing.
-- A call of `recv_into` is an element of a list of what the kernel returns, and a request whose list ends
-- still waits; a wait of the DHCP client meets a list of rounds in the same way. The text of a name that is not UTF-8 is a parameter.
--
-- Fuel. `parse_options` runs on fuel; `parse` gives it the number of bytes left, and each round drops
-- at least one byte. The loops over attributes, messages and information elements run on the number of
-- bytes, and each round drops at least four, sixteen and two. The loop over temporary names runs on fuel,
-- and writes nothing where every name is taken, which the code would try further. The wait for an
-- association meets a list of polls.
--
-- Not modelled: the property getters of the D-Bus objects and their registration, the daemon's start-up
-- and the socket calls of the DHCP client. polkit, wpa_supplicant, the bus, sockets and
-- files are programs of their own; their answers are parameters, with the laws that the code relies on.
pub mod Common
pub mod Authorization
pub mod Connection
pub mod Linux
pub mod Daemon
pub mod Dbus
