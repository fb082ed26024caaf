-- ===== src/Linux/IpConfig/Configured.antt =====
-- What a configuration and its removal ask of the kernel, message by message.
use network_manager_rs.Common.{
  ℕ, ◌≤◌, ◌≡◌, arith, refl, false, Option, none, some, List, [], ◌∷◌, ◌++◌, map, Result, ok,
  Option-cases, inl, inr, Str, ltb, Octets4,
}
use network_manager_rs.Common.Int.{ℤ}
use network_manager_rs.Connection.Ip.{Ipv4Config}
use network_manager_rs.Linux.Model.{NetlinkError, Address, v4, ip_v4, scope_from_u8, scope_as_u8}
use network_manager_rs.Linux.Model.Events.{
  NetworkEvent, AddressEventKind, RouteEventKind, address_event, route_event,
}
use network_manager_rs.Linux.Netlink.Wire.{i32_bits}
use network_manager_rs.Linux.Netlink.Messages.{parse_network_events}
use network_manager_rs.Linux.IpConfig.{
  configure_ipv4, remove_ipv4, add_address, remove_address, add_route, remove_route,
  gateway_route_v4,
}
use network_manager_rs.Linux.IpConfig.Values.{IsI32, IsRoute}
use network_manager_rs.Linux.IpConfig.Announced.{address-announced, route-announced}

-- A kernel that grants every request and keeps what it was sent, the first message first.
abbrev pub granting : List (List ℕ) → List ℕ → Result (Unit {0}) NetlinkError × List (List ℕ)
granting sent message = (ok tt, sent ++ (message ∷ []))

-- The address of a configuration on an interface.
abbrev pub held_address : ℤ → Ipv4Config → Address
held_address index c = record {
  interface_index = i32_bits index;
  address = v4 c.address;
  prefix_length = c.prefix_length;
}

-- The event of the default route through the gateway, if the configuration has one.
abbrev pub gateway_events :
    RouteEventKind → ℤ → Option Octets4 → List (Result (List NetworkEvent) NetlinkError)
gateway_events kind index none = []
gateway_events kind index (some gateway) =
    ok (route_event kind (gateway_route_v4 index gateway) ∷ []) ∷ []

gateway_IsRoute : (index : ℤ) (g : Octets4) → IsI32 index → IsRoute (gateway_route_v4 index g)
gateway_IsRoute index g h = record {
  destination_ok = tt;
  gateway_ok = tt;
  index_ok = h;
  metric_ok = tt;
  kind_ok = refl;
  scope_ok = unfold scope_from_u8 scope_as_u8 in refl;
}

-- On a kernel that grants every request, `configure_ipv4` succeeds, and what it sends is announced
-- as the address and then the default route through the gateway, if there is one, being added;
-- `remove_ipv4` succeeds, and what it sends is announced as the same route and then the same address
-- being removed. The prefix length is at most 32 and the index is an `i32`.
pub configure_ipv4-announced :
    (lossy : List ℕ → Str) (index : ℤ) (c : Ipv4Config)
    → IsI32 index
    → c.prefix_length ≤ 32
    → let up = configure_ipv4 granting [] index c in
      let down = remove_ipv4 granting [] index c in
      (up.0 ≡ ok tt)
      × (map (parse_network_events lossy) up.1
          ≡ ok (address_event AddressEventKind.added (held_address index c) ∷ [])
            ∷ gateway_events RouteEventKind.added index c.gateway)
      × (down.0 ≡ ok tt)
      × (map (parse_network_events lossy) down.1
          ≡ gateway_events RouteEventKind.removed index c.gateway
            ++ (ok (address_event AddressEventKind.removed (held_address index c) ∷ []) ∷ []))
unfolding configure_ipv4 remove_ipv4 add_address remove_address add_route remove_route
configure_ipv4-announced lossy index c h p =
    let small : ltb 32 c.prefix_length ≡ false = ground arith in
    let addresses = address-announced lossy ip_v4 (v4 c.address) c.prefix_length index tt h in
    elim (Option-cases c.gateway) [
      | inl e ↦ rw (e, small, addresses.0, addresses.1) (refl, refl, refl, refl)
      | inr (g, e) ↦
          let routes =
            route-announced lossy (gateway_route_v4 index g) (gateway_IsRoute index g h) in
          rw (e, small, addresses.0, addresses.1, routes.0, routes.1) (refl, refl, refl, refl)
    ]
