-- ===== src/Linux/IpEngine/Routes.antt =====
-- src/linux/ip_engine.rs: the routes that an IP configuration implies.
use network_manager_rs.Common.{
  Bool, false, leb, ◌&&◌, find, ℕ, ◌+◌, ◌-◌, ◌*◌, ◌/◌, ◌%◌, ◌^◌, Option, none, some, List, [], ◌∷◌,
  keep, replicate, length, min, if◌then◌else◌, ◌==◌, Octets4, be32, from_be32,
}
use network_manager_rs.Common.Int.{ℤ, pos, negsuc}
use network_manager_rs.Connection.Profile.{IpConfig}
use network_manager_rs.Linux.Model.{
  IpAddr, v4, v6, ip_v4, ip_v6, family_eq, unicast, universe, link, Route, Address,
}
use network_manager_rs.Linux.Dhcp.Packet.{octets4}

-- `bits & mask`, where `mask` is all ones but for the lowest `width - prefix` bits (none for prefix 0).
abbrev pub masked : ℕ → ℕ → ℕ → ℕ
masked width prefix bits =
    if prefix == 0 then 0 else let low = 2 ^ (width - min prefix width) in bits / low * low

abbrev pub u32_value : Octets4 → ℕ
u32_value a = from_be32 a.a a.b a.c a.d

unfoldable pub network_address_v4 : Octets4 → ℕ → Octets4
network_address_v4 address prefix_length =
    octets4 (be32 (masked 32 prefix_length (u32_value address)))

-- Big-endian numbers of any width: `from_be_bytes` and `to_be_bytes`.
abbrev pub from_be : ℕ → List ℕ → ℕ
from_be value [] = value
from_be value (b ∷ bs) = from_be (value * 256 + b) bs

abbrev pub to_be : List ℕ → ℕ → List ℕ
to_be [] value = []
to_be (_ ∷ places) value = value / 256 ^ (length places) % 256 ∷ to_be places value

-- An IPv6 address is its sixteen octets.
unfoldable pub network_address_v6 : List ℕ → ℕ → List ℕ
network_address_v6 address prefix_length =
    to_be address (masked 128 prefix_length (from_be 0 address))

unfoldable pub connected_route_v4 : ℤ → Octets4 → ℕ → Route
connected_route_v4 interface_index address prefix_length = record {
  family = ip_v4;
  destination = v4 (network_address_v4 address prefix_length);
  prefix_length = prefix_length;
  gateway = none;
  output_interface = some interface_index;
  metric = none;
  kind = unicast;
  scope = link;
}

unfoldable pub connected_route_v6 : ℤ → List ℕ → ℕ → Route
connected_route_v6 interface_index address prefix_length = record {
  family = ip_v6;
  destination = v6 (network_address_v6 address prefix_length);
  prefix_length = prefix_length;
  gateway = none;
  output_interface = some interface_index;
  metric = none;
  kind = unicast;
  scope = link;
}

unfoldable pub default_route_v4 : ℤ → Octets4 → Route
default_route_v4 interface_index gateway = record {
  family = ip_v4;
  destination = v4 (record { a = 0; b = 0; c = 0; d = 0 });
  prefix_length = 0;
  gateway = some (v4 gateway);
  output_interface = some interface_index;
  metric = none;
  kind = unicast;
  scope = universe;
}

unfoldable pub default_route_v6 : ℤ → List ℕ → Route
default_route_v6 interface_index gateway = record {
  family = ip_v6;
  destination = v6 (replicate 16 0);
  prefix_length = 0;
  gateway = some (v6 gateway);
  output_interface = some interface_index;
  metric = none;
  kind = unicast;
  scope = universe;
}

unfoldable pub ipv4_routes_for : ℤ → Octets4 → ℕ → Option Octets4 → List Route
ipv4_routes_for interface_index address prefix_length none =
    connected_route_v4 interface_index address prefix_length ∷ []
ipv4_routes_for interface_index address prefix_length (some gateway) =
    connected_route_v4 interface_index address prefix_length
    ∷ default_route_v4 interface_index gateway
    ∷ []

unfoldable pub ipv6_routes_for : ℤ → List ℕ → ℕ → Option (List ℕ) → List Route
ipv6_routes_for interface_index address prefix_length none =
    connected_route_v6 interface_index address prefix_length ∷ []
ipv6_routes_for interface_index address prefix_length (some gateway) =
    connected_route_v6 interface_index address prefix_length
    ∷ default_route_v6 interface_index gateway
    ∷ []

unfoldable pub ipv4_static_routes : IpConfig → List Route
ipv4_static_routes config = keep (λ r. family_eq r.family ip_v4) config.routes

unfoldable pub ipv6_static_routes : IpConfig → List Route
ipv6_static_routes config = keep (λ r. family_eq r.family ip_v6) config.routes

-- `Ipv6Addr::is_unicast_link_local`: the prefix fe80::/10.
abbrev is_link_local : IpAddr → Bool
is_link_local (v4 a) = false
is_link_local (v6 (a ∷ b ∷ rest)) = a == 254 && leb 128 b && leb b 191
is_link_local (v6 _) = false

-- `interface_index as u32`.
abbrev as_u32 : ℤ → ℕ
as_u32 (pos n) = n % 2 ^ 32
as_u32 (negsuc n) = 2 ^ 32 - 1 - n

abbrev pub v6_of : IpAddr → Option (List ℕ)
v6_of (v4 a) = none
v6_of (v6 a) = some a

abbrev pub v4_of : IpAddr → Option Octets4
v4_of (v4 a) = some a
v4_of (v6 a) = none

abbrev pub and_then {ℓ κ} : {A : Type ℓ} {B : Type κ} → (A → Option B) → Option A → Option B
and_then f none = none
and_then f (some a) = f a

-- `link_local_address`, from the kernel's answer to `get_addresses().ok()`.
unfoldable pub link_local_address : Option (List Address) → ℤ → Option (List ℕ)
link_local_address none interface_index = none
link_local_address (some addresses) interface_index =
    and_then (λ a. v6_of a.address)
      (find (λ a. a.interface_index == as_u32 interface_index && is_link_local a.address) addresses)
