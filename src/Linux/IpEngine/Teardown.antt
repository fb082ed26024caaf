-- ===== src/Linux/IpEngine/Teardown.antt =====
-- src/linux/ip_engine.rs: the removal of everything that an activation has recorded.
use network_manager_rs.Common.{ℕ, Option, none, some, List, [], ◌∷◌, Result, ok, err, find_map}
use network_manager_rs.Connection.Ip.{
  DhcpLease, DnsOwnership, ActiveIpv4, ActiveIpv6, ActiveIpState, Ipv6Source,
}
use network_manager_rs.Linux.Model.{Route}
use network_manager_rs.Linux.IpEngine.Backends.{
  IpConfigurator, DhcpClient, DnsManager, World, IpEngineError, Step, done, on_ip, on_dhcp, on_dns,
}
use network_manager_rs.Linux.IpEngine.Routes.{v4_of, and_then}

-- Of two results of a teardown the first error is kept.
abbrev pub first_error :
    Result (Unit {0}) IpEngineError
    → Result (Unit {0}) IpEngineError
    → Result (Unit {0}) IpEngineError
first_error (err e) r = err e
first_error (ok _) r = r

-- One step, and the next one whether or not the first fails.
abbrev pub also : {W : Type 0} → Step W (Unit {0}) → Step W (Unit {0}) → Step W (Unit {0})
also m k w = let (r, w1) = m w in let (s, w2) = k w1 in (first_error r s, w2)

-- `let _ = ...`: a step whose error is dropped.
abbrev pub ignored : {W : Type 0} → Step W (Unit {0}) → Step W (Unit {0})
ignored m w = (ok tt, (m w).1)

module _ {C D N : Type 0} (ips : IpConfigurator C) (client : DhcpClient D)
    (names : DnsManager N) where
  unfoldable pub remove_routes : List Route → Step (World C D N) (Unit {0})
  remove_routes [] = done tt
  remove_routes (r ∷ rest) = also (ignored (on_ip (λ c. ips.remove_route c r))) (remove_routes rest)

  abbrev pub release_lease : Option DhcpLease → Step (World C D N) (Unit {0})
  release_lease none = done tt
  release_lease (some lease) = ignored (on_dhcp (λ d. client.release d lease))

  abbrev pub teardown_dns : Option DnsOwnership → Step (World C D N) (Unit {0})
  teardown_dns none = done tt
  teardown_dns (some ownership) = on_dns (λ n. names.remove n ownership)

  abbrev pub teardown_ipv4 : Option ActiveIpv4 → Step (World C D N) (Unit {0})
  teardown_ipv4 none = done tt
  teardown_ipv4 (some active) =
      let gateway = find_map (λ r. and_then v4_of r.gateway) active.routes in
      also (remove_routes active.routes) (
        also (release_lease active.lease) (
          on_ip (λ c. ips.remove_ipv4 c active.interface_index (record {
            address = active.address;
            prefix_length = active.prefix_length;
            gateway = gateway;
          }))))

  -- Only a manual configuration has an address to remove.
  abbrev pub remove_address_v6 :
      Ipv6Source → ActiveIpv6 → Option (List ℕ) → Step (World C D N) (Unit {0})
  remove_address_v6 Ipv6Source.manual active (some address) = on_ip (λ c.
      ips.remove_ipv6 c active.interface_index
        (record { address = address; prefix_length = active.prefix_length; gateway = none }))
  remove_address_v6 _ active _ = done tt

  abbrev pub teardown_ipv6 : Option ActiveIpv6 → Step (World C D N) (Unit {0})
  teardown_ipv6 none = done tt
  teardown_ipv6 (some active) =
      also (remove_routes active.routes) (remove_address_v6 active.source active active.link_local)

  unfoldable pub teardown : ActiveIpState → Step (World C D N) (Unit {0})
  teardown state =
      also (teardown_dns state.dns_owner)
        (also (teardown_ipv4 state.ipv4) (teardown_ipv6 state.ipv6))
