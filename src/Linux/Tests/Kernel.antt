-- ===== src/Linux/Tests/Kernel.antt =====
-- Requests to the kernel, its answers, and the events it sends.
use network_manager_rs.Common.{
  ℕ, ◌≡◌, refl, arith, false, some, List, [], ◌∷◌, ◌++◌, map, length, replicate, ok, err, Str,
  Result, Octets4,
}
use network_manager_rs.Common.Int.{ℤ, pos, negsuc}
use network_manager_rs.Connection.Ip.{Ipv4Config}
use network_manager_rs.Linux.Model.{
  Route, NetlinkError, io, ip_v4, v4, unicast, universe, scope_from_u8, scope_as_u8,
}
use network_manager_rs.Linux.Model.Events.{
  AddressEventKind, RouteEventKind, address_event, route_event, NetworkEvent,
}
use network_manager_rs.Linux.Netlink.Wire.{rtm_newroute, rtm_delroute}
use network_manager_rs.Linux.Netlink.Parse.{parse_route}
use network_manager_rs.Linux.Netlink.Messages.{parse_network_events}
use network_manager_rs.Linux.Netlink.Sockets.{Socket}
use network_manager_rs.Linux.Netlink.Source.{Turn, receives}
use network_manager_rs.Linux.Netlink.Answers.{ack, noise_buffers}
use network_manager_rs.Linux.Netlink.Streams.{stream}
use network_manager_rs.Linux.Netlink.Listing.{dump_buffers}
use network_manager_rs.Linux.IpConfig.{
  configure_ipv4, remove_ipv4, build_route_message, route_flags, remove_flags,
}
use network_manager_rs.Linux.IpConfig.Values.{IsRoute}
use network_manager_rs.Linux.IpConfig.Payloads.{requested}
use network_manager_rs.Linux.IpConfig.Announced.{route-announced}
use network_manager_rs.Linux.IpConfig.Listed.{route_entry}
use network_manager_rs.Linux.IpConfig.Configured.{
  granting, held_address, gateway_events, configure_ipv4-announced,
}

-- The bytes of a name, taken as they are.
abbrev as_is : List ℕ → Str
as_is bytes = bytes

abbrev at : ℕ → ℕ → Octets4
at c d = record { a = 192; b = 168; c = c; d = d }

abbrev config : Ipv4Config
config = record { address = at 1 7; prefix_length = 24; gateway = some (at 1 1) }

configure_ipv4-announced_example :
    let up = configure_ipv4 granting [] (pos 2) config in
    let down = remove_ipv4 granting [] (pos 2) config in
    (up.0 ≡ ok tt)
    × (map (parse_network_events as_is) up.1
        ≡ ok (address_event AddressEventKind.added (held_address (pos 2) config) ∷ [])
          ∷ gateway_events RouteEventKind.added (pos 2) config.gateway)
    × (down.0 ≡ ok tt)
    × (map (parse_network_events as_is) down.1
        ≡ gateway_events RouteEventKind.removed (pos 2) config.gateway
          ++ (ok (address_event AddressEventKind.removed (held_address (pos 2) config) ∷ []) ∷ []))
configure_ipv4-announced_example =
    configure_ipv4-announced as_is (pos 2) config (omega arith) (omega arith)

abbrev network : ℕ → Route
network c = record {
  family = ip_v4;
  destination = v4 (at c 0);
  prefix_length = 24;
  gateway = some (v4 (at 1 1));
  output_interface = some (pos 2);
  metric = some 600;
  kind = unicast;
  scope = universe;
}

network-IsRoute : (c : ℕ) → IsRoute (network c)
unfolding scope_from_u8 scope_as_u8
network-IsRoute c = record {
  destination_ok = tt;
  gateway_ok = tt;
  index_ok = omega arith;
  metric_ok = omega arith;
  kind_ok = refl;
  scope_ok = refl;
}

route-announced_example :
    (parse_network_events as_is (build_route_message rtm_newroute route_flags (network 5))
      ≡ ok (route_event RouteEventKind.added (requested (network 5)) ∷ []))
    × (parse_network_events as_is (build_route_message rtm_delroute remove_flags (network 5))
        ≡ ok (route_event RouteEventKind.removed (requested (network 5)) ∷ []))
route-announced_example = route-announced as_is (network 5) (network-IsRoute 5)

-- Two buffers, with an interrupted call between them.
abbrev sent : ℕ → List ℕ
sent c = build_route_message rtm_newroute route_flags (network c)

abbrev added : ℕ → NetworkEvent
added c = route_event RouteEventKind.added (requested (network c))

abbrev turns : List Turn
turns =
    receives (ok (sent 5)) false ∷ receives (err (io 4)) false ∷ receives (ok (sent 6)) false ∷ []

-- A socket of a kernel that takes whole messages.
abbrev socket_with : List (Result (List ℕ) NetlinkError) → Socket
socket_with received = record {
  opened = ok tt;
  send = λ bytes. ok (length bytes);
  received = received;
}

abbrev dump : List (Result (List ℕ) NetlinkError)
dump =
    dump_buffers rtm_newroute parse_route route_entry requested ((network 6 ∷ []) ∷ [])
      (network 5 ∷ []) []

-- The kernel refuses: EEXIST, and the header of the request.
abbrev exists_code : ℤ
exists_code = negsuc 16

abbrev refusal : List (Result (List ℕ) NetlinkError)
refusal = noise_buffers [] (ok (stream (ack exists_code (replicate 16 0) ∷ [])) ∷ [])
