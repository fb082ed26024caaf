-- ===== src/Linux/Model.antt =====
-- src/linux/model.rs: errors, links, addresses and routes, as snapshots of kernel state.
pub mod Codes
pub mod Hex
pub mod Wireless
pub mod Tables
pub mod Channels
pub mod Events
use network_manager_rs.Common.{
  ℕ, Bool, true, false, ◌&&◌, Option, List, [], ◌∷◌, Str, Octets4, octets, ◌==◌, match_code,
}
use network_manager_rs.Common.Int.{ℤ}

-- `std::net::IpAddr`: an IPv4 address by its four octets, an IPv6 address by its sixteen.
pub data IpAddr : Type 0 where
  v4 : Octets4 → IpAddr
  v6 : List ℕ → IpAddr

abbrev pub is_ipv4 : IpAddr → Bool
is_ipv4 (v4 a) = true
is_ipv4 (v6 a) = false

abbrev pub all_zero : List ℕ → Bool
all_zero [] = true
all_zero (b ∷ bs) = b == 0 && all_zero bs

-- `Ipv4Addr::is_unspecified`.
abbrev pub is_unspecified : Octets4 → Bool
is_unspecified a = all_zero (octets a)

-- An `io::Error` is known by its raw error code, a message by its text.
pub data NetlinkError : Type 0 where
  io : ℕ → NetlinkError
  kernel : ℤ → NetlinkError
  malformed_message : Str → NetlinkError

pub record Link : Type 0 where
  pub index : ℤ
  pub name : Str
  pub flags : ℕ

pub record Address : Type 0 where
  pub interface_index : ℕ
  pub address : IpAddr
  pub prefix_length : ℕ

pub data IpFamily : Type 0 where
  ip_v4 ip_v6 : IpFamily

abbrev pub family_eq : IpFamily → IpFamily → Bool
family_eq ip_v4 ip_v4 = true
family_eq ip_v6 ip_v6 = true
family_eq _ _ = false

pub data RouteKind : Type 0 where
  unicast local broadcast anycast multicast blackhole unreachable : RouteKind
  other_kind : ℕ → RouteKind

unfoldable pub kind_from_u8 : ℕ → RouteKind
kind_from_u8 =
    match_code
      ((1, unicast)
        ∷ (2, local)
        ∷ (3, broadcast)
        ∷ (4, anycast)
        ∷ (5, multicast)
        ∷ (6, blackhole)
        ∷ (7, unreachable)
        ∷ [])
      other_kind

unfoldable pub kind_as_u8 : RouteKind → ℕ
kind_as_u8 unicast = 1
kind_as_u8 local = 2
kind_as_u8 broadcast = 3
kind_as_u8 anycast = 4
kind_as_u8 multicast = 5
kind_as_u8 blackhole = 6
kind_as_u8 unreachable = 7
kind_as_u8 (other_kind value) = value

pub data RouteScope : Type 0 where
  universe link host : RouteScope
  other_scope : ℕ → RouteScope

unfoldable pub scope_from_u8 : ℕ → RouteScope
scope_from_u8 = match_code ((0, universe) ∷ (253, link) ∷ (254, host) ∷ []) other_scope

unfoldable pub scope_as_u8 : RouteScope → ℕ
scope_as_u8 universe = 0
scope_as_u8 link = 253
scope_as_u8 host = 254
scope_as_u8 (other_scope value) = value

pub record Route : Type 0 where
  pub family : IpFamily
  pub destination : IpAddr
  pub prefix_length : ℕ
  pub gateway : Option IpAddr
  pub output_interface : Option ℤ
  pub metric : Option ℕ
  pub kind : RouteKind
  pub scope : RouteScope

-- The `match` on the pair of family and destination.
abbrev pub destination_unspecified : IpFamily → IpAddr → Bool
destination_unspecified ip_v4 (v4 a) = is_unspecified a
destination_unspecified ip_v6 (v6 a) = all_zero a
destination_unspecified _ _ = false

unfoldable pub is_default : Route → Bool
is_default r = r.prefix_length == 0 && destination_unspecified r.family r.destination
