-- ===== src/Linux/IpConfig.antt =====
-- src/linux/ipconfig.rs: addresses and routes installed and removed by netlink requests.
pub mod Values
pub mod Written
pub mod Payloads
pub mod Announced
pub mod Listed
pub mod Configured
use Prim.Native.Nat.{bit_or}
use network_manager_rs.Common.{
  ℕ, Bool, not, Option, none, some, List, [], ◌∷◌, ◌++◌, replicate, ltb, if◌then◌else◌, Result, ok,
  err, map_err, str, Octets4, octets,
}
use network_manager_rs.Common.Int.{ℤ, pos}
use network_manager_rs.Connection.Ip.{Ipv4Config, Ipv6Config, IpConfigError}
use network_manager_rs.Linux.Model.{
  NetlinkError, IpAddr, v4, v6, IpFamily, ip_v4, ip_v6, Route, RouteKind, unicast, RouteScope, link,
  universe, kind_as_u8, scope_as_u8, is_default,
}
use network_manager_rs.Linux.Dhcp.Packet.{octets4}
use network_manager_rs.Linux.IpEngine.Backends.{IpConfigurator}
use network_manager_rs.Linux.Netlink.Wire.{
  le_bytes, i32_bits, af_inet, af_inet6, ifa_address, ifa_local, nlm_f_ack, nlm_f_create,
  nlm_f_excl, nlm_f_replace, nlm_f_request, rt_table_main, rta_dst, rta_gateway, rta_oif,
  rta_priority, rtm_deladdr, rtm_delroute, rtm_newaddr, rtm_newroute,
}
use network_manager_rs.Linux.Netlink.Structs.{
  Attr, build_netlink_message, ifaddr_payload, rtmsg_payload,
}

unfoldable pub address_message : ℕ → ℕ → ℕ → ℕ → ℤ → List ℕ → List ℕ
address_message message_type flags family prefix_length interface_index address =
    build_netlink_message message_type flags (
      ifaddr_payload family prefix_length interface_index
        ((ifa_local, address) ∷ (ifa_address, address) ∷ []))

abbrev pub add_flags : ℕ
add_flags = bit_or nlm_f_request (bit_or nlm_f_create (bit_or nlm_f_excl nlm_f_ack))

abbrev pub route_flags : ℕ
route_flags = bit_or nlm_f_request (bit_or nlm_f_create (bit_or nlm_f_replace nlm_f_ack))

abbrev pub remove_flags : ℕ
remove_flags = bit_or nlm_f_request nlm_f_ack

abbrev pub ip_bytes : IpAddr → List ℕ
ip_bytes (v4 address) = octets address
ip_bytes (v6 address) = address

abbrev pub family_bytes : IpFamily → ℕ
family_bytes ip_v4 = af_inet
family_bytes ip_v6 = af_inet6

abbrev pub route_type : RouteKind → ℕ
route_type unicast = 1
route_type other = kind_as_u8 other

abbrev pub route_scope : RouteScope → ℕ
route_scope link = 253
route_scope other = scope_as_u8 other

-- `if let Some(a)` that pushes one attribute.
abbrev pub attr_of {ℓ} : {A : Type ℓ} → ℕ → (A → List ℕ) → Option A → List Attr
attr_of attr_type bytes none = []
attr_of attr_type bytes (some a) = (attr_type, bytes a) ∷ []

abbrev pub index_or_zero : Option ℤ → ℤ
index_or_zero none = pos 0
index_or_zero (some index) = index

unfoldable pub route_attrs : Route → List Attr
route_attrs route =
    (if is_default route then [] else (rta_dst, ip_bytes route.destination) ∷ [])
    ++ (attr_of rta_gateway ip_bytes route.gateway
        ++ ((rta_oif, le_bytes 4 (i32_bits (index_or_zero route.output_interface)))
            ∷ attr_of rta_priority (le_bytes 4) route.metric))

abbrev pub route_payload : Route → List ℕ
route_payload route =
    rtmsg_payload (family_bytes route.family) route.prefix_length rt_table_main
      (route_scope route.scope) (route_type route.kind) (route_attrs route)

unfoldable pub build_route_message : ℕ → ℕ → Route → List ℕ
build_route_message message_type flags route =
    build_netlink_message message_type flags (route_payload route)

-- The default route of `configure` and `remove`.
abbrev pub gateway_route_v4 : ℤ → Octets4 → Route
gateway_route_v4 interface_index gateway = record {
  family = ip_v4;
  destination = v4 (octets4 (replicate 4 0));
  prefix_length = 0;
  gateway = some (v4 gateway);
  output_interface = some interface_index;
  metric = none;
  kind = unicast;
  scope = universe;
}

abbrev pub gateway_route_v6 : ℤ → List ℕ → Route
gateway_route_v6 interface_index gateway = record {
  family = ip_v6;
  destination = v6 (replicate 16 0);
  prefix_length = 0;
  gateway = some (v6 gateway);
  output_interface = some interface_index;
  metric = none;
  kind = unicast;
  scope = universe;
}

abbrev pub after_request :
    {C : Type 0}
    → (C → Result (Unit {0}) IpConfigError × C)
    → Result (Unit {0}) IpConfigError × C
    → Result (Unit {0}) IpConfigError × C
after_request next (ok _, c) = next c
after_request next (err e, c) = (err e, c)

-- `transact` is `transact_rtnetlink` over the sockets of the kernel C.
module _ {C : Type 0} (transact : C → List ℕ → Result (Unit {0}) NetlinkError × C) where
  -- `map_err(Into::into)`.
  abbrev pub request : C → List ℕ → Result (Unit {0}) IpConfigError × C
  request c message =
      let answer = transact c message in (map_err IpConfigError.netlink answer.0, answer.1)

  unfoldable pub add_address : C → ℕ → ℕ → ℤ → List ℕ → Result (Unit {0}) IpConfigError × C
  add_address c family prefix_length interface_index address =
      request c (address_message rtm_newaddr add_flags family prefix_length interface_index address)

  unfoldable pub remove_address : C → ℕ → ℕ → ℤ → List ℕ → Result (Unit {0}) IpConfigError × C
  remove_address c family prefix_length interface_index address =
      request c
        (address_message rtm_deladdr remove_flags family prefix_length interface_index address)

  unfoldable pub add_route : C → Route → Result (Unit {0}) IpConfigError × C
  add_route c route = request c (build_route_message rtm_newroute route_flags route)

  unfoldable pub remove_route : C → Route → Result (Unit {0}) IpConfigError × C
  remove_route c route = request c (build_route_message rtm_delroute remove_flags route)

  -- `if let Some(gateway) = config.gateway`.
  abbrev pub add_gateway :
      {A : Type 0} → (A → Route) → Option A → C → Result (Unit {0}) IpConfigError × C
  add_gateway route none c = (ok tt, c)
  add_gateway route (some gateway) c = add_route c (route gateway)

  -- The answer of the removal is ignored.
  abbrev pub remove_gateway : {A : Type 0} → (A → Route) → Option A → C → C
  remove_gateway route none c = c
  remove_gateway route (some gateway) c = (remove_route c (route gateway)).1

  unfoldable pub configure_ipv4 : C → ℤ → Ipv4Config → Result (Unit {0}) IpConfigError × C
  configure_ipv4 c interface_index config =
      if ltb 32 config.prefix_length
      then (err (IpConfigError.invalid_config (str "ipv4 prefix length exceeds 32")), c)
      else after_request (add_gateway (gateway_route_v4 interface_index) config.gateway)
          (add_address c af_inet config.prefix_length interface_index (octets config.address))

  unfoldable pub remove_ipv4 : C → ℤ → Ipv4Config → Result (Unit {0}) IpConfigError × C
  remove_ipv4 c interface_index config =
      remove_address (remove_gateway (gateway_route_v4 interface_index) config.gateway c) af_inet
        config.prefix_length interface_index (octets config.address)

  unfoldable pub configure_ipv6 : C → ℤ → Ipv6Config → Result (Unit {0}) IpConfigError × C
  configure_ipv6 c interface_index config =
      if ltb 128 config.prefix_length
      then (err (IpConfigError.invalid_config (str "ipv6 prefix length exceeds 128")), c)
      else after_request (add_gateway (gateway_route_v6 interface_index) config.gateway)
          (add_address c af_inet6 config.prefix_length interface_index config.address)

  unfoldable pub remove_ipv6 : C → ℤ → Ipv6Config → Result (Unit {0}) IpConfigError × C
  remove_ipv6 c interface_index config =
      remove_address (remove_gateway (gateway_route_v6 interface_index) config.gateway c) af_inet6
        config.prefix_length interface_index config.address

  -- The interface that the IP engine is a client of.
  unfoldable pub linux_ip_configurator : IpConfigurator C
  linux_ip_configurator = record {
    configure_ipv4 = configure_ipv4;
    remove_ipv4 = remove_ipv4;
    configure_ipv6 = configure_ipv6;
    remove_ipv6 = remove_ipv6;
    add_route = add_route;
    remove_route = remove_route;
  }
