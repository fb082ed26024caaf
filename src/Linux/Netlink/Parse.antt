-- ===== src/Linux/Netlink/Parse.antt =====
-- src/linux/netlink.rs: what the payload of a message says: an error, an address, a route, a link.
use network_manager_rs.Common.{
  ℕ, Bool, true, false, not, ◌&&◌, ◌||◌, Option, none, some, List, length, drop, take, replicate,
  ltb, ◌==◌, if◌then◌else◌, Result, ok, err, ◌>>=◌, ◌>>◌, guard, str, Str,
}
use mathlib.Core.Option
use network_manager_rs.Common.Int.{ℤ}
use network_manager_rs.Linux.Model.{
  NetlinkError, kernel, malformed_message, IpAddr, v4, v6, IpFamily, ip_v4, ip_v6, Address, Route,
  Link, RouteKind, unicast, blackhole, unreachable, kind_from_u8, scope_from_u8,
}
use network_manager_rs.Linux.Dhcp.Packet.{octets4}
use network_manager_rs.Linux.Dhcp.Packet.Fields.{until_zero}
use network_manager_rs.Linux.Netlink.Wire.{
  le_of, i32_of_bits, read_unaligned, ifla_ifname, ifa_address, ifa_local, rta_dst, rta_oif,
  rta_gateway, rta_priority, rt_table_main, af_inet, af_inet6,
}
use network_manager_rs.Linux.Netlink.Structs.{
  Attr, IfAddrMsg, RtMsg, ifaddr_layout, ifinfo_layout, rtmsg_layout,
}
use network_manager_rs.Linux.Netlink.Attributes.{walk_attrs}

abbrev pub malformed {ℓ} : {A : Type ℓ} → Str → Result A NetlinkError
malformed text = err (malformed_message text)

unfoldable pub parse_kernel_error_code : List ℕ → Result ℤ NetlinkError
parse_kernel_error_code payload =
    if ltb (length payload) 4
    then malformed (str "short nlmsgerr")
    else ok (i32_of_bits (le_of (take 4 payload)))

abbrev pub error_of : Result ℤ NetlinkError → NetlinkError
error_of (ok code) = kernel code
error_of (err e) = e

unfoldable pub parse_kernel_error : List ℕ → NetlinkError
parse_kernel_error payload = error_of (parse_kernel_error_code payload)

-- The address family, and `None` for one that is not of IP.
unfoldable pub ip_family : ℕ → Option IpFamily
ip_family family =
    if family == af_inet then some ip_v4 else if family == af_inet6 then some ip_v6 else none

abbrev pub expected_len : IpFamily → ℕ
expected_len ip_v4 = 4
expected_len ip_v6 = 16

unfoldable pub address_from_bytes : IpFamily → List ℕ → IpAddr
address_from_bytes ip_v4 bytes = v4 (octets4 bytes)
address_from_bytes ip_v6 bytes = v6 (take 16 bytes)

abbrev pub is_none {ℓ} : {A : Type ℓ} → Option A → Bool
is_none none = true
is_none (some a) = false

-- A value whose length the attribute's type fixes.
abbrev pub sized : ℕ → Str → List ℕ → Result (List ℕ) NetlinkError
sized size text value = if length value == size then ok value else malformed text

unfoldable pub address_attr :
    IpFamily → Attr → Option (List ℕ) → Result (Option (List ℕ)) NetlinkError
address_attr family (attr_type, value) address_bytes =
    if (attr_type == ifa_local || attr_type == ifa_address) && is_none address_bytes
    then (sized (expected_len family) (str "invalid address attribute length") value >>= λ bytes.
        ok (some bytes))
    else ok address_bytes

unfoldable pub address_of : IfAddrMsg → IpFamily → List ℕ → Result (Option Address) NetlinkError
address_of info family payload = do
  address_bytes ← walk_attrs (address_attr family) (drop 8 payload) none
  ok (
      Option.map
        (λ bytes. record {
          interface_index = info.ifa_index;
          address = address_from_bytes family bytes;
          prefix_length = info.ifa_prefixlen;
        })
        address_bytes)

-- Nothing is read of a message of another family.
abbrev pub of_family {ℓ} :
    {A : Type ℓ} → ℕ → (IpFamily → Result (Option A) NetlinkError) → Result (Option A) NetlinkError
of_family family read = elim (ip_family family) [ none ↦ ok none | some f ↦ read f ]

unfoldable pub parse_address : List ℕ → Result (Option Address) NetlinkError
parse_address payload = do
  guard (not (ltb (length payload) 8)) (malformed_message (str "short ifaddrmsg"))
  info ← read_unaligned 8 ifaddr_layout payload
  of_family info.ifa_family (λ family. address_of info family payload)

-- The four variables that the loop of `parse_route` fills in.
pub record RouteAttrs : Type 0 where
  pub destination : Option (List ℕ)
  pub gateway : Option (List ℕ)
  pub output_interface : Option ℤ
  pub metric : Option ℕ

abbrev pub no_attrs : RouteAttrs
no_attrs = record { destination = none; gateway = none; output_interface = none; metric = none }

unfoldable pub route_attr : IpFamily → Attr → RouteAttrs → Result RouteAttrs NetlinkError
route_attr family (attr_type, value) attrs =
    if attr_type == rta_dst
    then (sized (expected_len family) (str "invalid route destination length") value >>= λ bytes.
        ok (record attrs { destination = some bytes }))
    else if attr_type == rta_gateway
    then (sized (expected_len family) (str "invalid route gateway length") value >>= λ bytes.
        ok (record attrs { gateway = some bytes }))
    else if attr_type == rta_oif
    then (sized 4 (str "invalid route oif length") value >>= λ bytes.
        ok (record attrs { output_interface = some (i32_of_bits (le_of bytes)) }))
    else if attr_type == rta_priority
    then (sized 4 (str "invalid route metric length") value >>= λ bytes.
        ok (record attrs { metric = some (le_of bytes) }))
    else ok attrs

abbrev pub destination_or_unspecified : IpFamily → Option (List ℕ) → IpAddr
destination_or_unspecified family (some bytes) = address_from_bytes family bytes
destination_or_unspecified ip_v4 none = v4 (octets4 (replicate 4 0))
destination_or_unspecified ip_v6 none = v6 (replicate 16 0)

abbrev pub route_of : RtMsg → IpFamily → RouteAttrs → Route
route_of info family attrs = record {
  family = family;
  destination = destination_or_unspecified family attrs.destination;
  prefix_length = info.rtm_dst_len;
  gateway = Option.map (address_from_bytes family) attrs.gateway;
  output_interface = attrs.output_interface;
  metric = attrs.metric;
  kind = kind_from_u8 info.rtm_type;
  scope = scope_from_u8 info.rtm_scope;
}

-- The kinds of route that are kept.
abbrev pub is_kept : RouteKind → Bool
is_kept unicast = true
is_kept blackhole = true
is_kept unreachable = true
is_kept _ = false

-- A table of 0 stands for the main table.
abbrev pub in_main_table : ℕ → Bool
in_main_table table = (if table == 0 then rt_table_main else table) == rt_table_main

unfoldable pub parse_route : List ℕ → Result (Option Route) NetlinkError
parse_route payload = do
  guard (not (ltb (length payload) 12)) (malformed_message (str "short rtmsg"))
  info ← read_unaligned 12 rtmsg_layout payload
  of_family info.rtm_family λ family.
      if in_main_table info.rtm_table && is_kept (kind_from_u8 info.rtm_type)
      then (walk_attrs (route_attr family) (drop 12 payload) no_attrs >>= λ attrs.
          ok (some (route_of info family attrs)))
      else ok none

-- `lossy` is `String::from_utf8_lossy`.
module _ (lossy : List ℕ → Str) where
  abbrev pub link_attr : Attr → Option Str → Result (Option Str) NetlinkError
  link_attr (attr_type, value) name =
      ok (if attr_type == ifla_ifname then some (lossy (until_zero value)) else name)

  unfoldable pub parse_link : List ℕ → Result (Option Link) NetlinkError
  parse_link payload = do
    guard (not (ltb (length payload) 16)) (malformed_message (str "short ifinfomsg"))
    info ← read_unaligned 16 ifinfo_layout payload
    name ← walk_attrs link_attr (drop 16 payload) none
    ok (
        Option.map (λ name. record { index = info.ifi_index; name = name; flags = info.ifi_flags })
          name)
